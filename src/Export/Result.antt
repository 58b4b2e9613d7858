-- ===== src/Export/Result.antt =====
-- The failures of the preparation of app/export.go, and the result of the export.
use vector_chain.Prelude.{
  ℕ, ◌+◌, ◌≡◌, refl, ◌⊎◌, inl, inr, String, Bool, true, false, List, [], ◌∷◌, ◌++◌, All, ok, fail,
  error, fatal, >>=-eq-ok, ok-injective, sym, ap, ◌∙◌,
}
use vector_chain.Export.{Bytes, Keepers}
use vector_chain.Export.Prepare.{allowed_addrs, prep_for_zero_height_genesis}
use vector_chain.Export.ExportApp.{Exporter, ExportedApp, collect, export_app_state_and_validators}

module _ {S Coins : Type 0} (k : Keepers S Coins) where
  -- A text is a validator address.
  abbrev pub Parses : String → Type 0
  Parses x = (b : Bytes) × (k.val_address_from_bech32 x ≡ ok b)

  allowed_addrs_rejects :
      (before : List String) (x : String) (after : List String) (m : String)
      → All Parses before
      → k.val_address_from_bech32 x ≡ fail (error m)
      → allowed_addrs k (before ++ x ∷ after) ≡ fail (fatal m)
  unfolding allowed_addrs
  allowed_addrs_rejects [] x after m ps bad = rw bad
  allowed_addrs_rejects (y ∷ before) x after m ((b, p), ps) bad =
      rw (p, allowed_addrs_rejects before x after m ps bad)

  pub allowed_addrs-All : (l : List String) → All Parses l → allowed_addrs k l ≡ ok l
  unfolding allowed_addrs
  allowed_addrs-All [] ps = refl
  allowed_addrs-All (x ∷ l) ((b, p), ps) = rw (p, allowed_addrs-All l ps)

  -- Once the invariants hold, the first text of the allow list that is no validator address ends the
  -- process with its error, before any call that changes the distribution or the staking state.
  pub prep_rejects_address :
      (before : List String) (x : String) (after : List String) (m : String) (h : ℕ) (s s₁ : S)
      → k.assert_invariants h s ≡ ok s₁
      → All Parses before
      → k.val_address_from_bech32 x ≡ fail (error m)
      → prep_for_zero_height_genesis k (before ++ x ∷ after) h s ≡ fail (fatal m)
  unfolding prep_for_zero_height_genesis
  prep_rejects_address before x after m h s s₁ holds ps bad =
      rw (holds, allowed_addrs_rejects before x after m ps bad)

module _ {S Coins GenState ConsensusParams : Type 0} (k : Keepers S Coins)
    (x : Exporter S GenState ConsensusParams) where
  -- The export of a state under a height: each part is what the module manager, the encoder and the
  -- keepers give for that state.
  pub record IsExport (modules : List String) (height : ℕ) (s : S) (e : ExportedApp ConsensusParams)
      : Type 0 where
    pub height_lem : e.height ≡ height
    pub gen_state : GenState
    pub exported : x.export_genesis_for_modules modules x.last_block_height s ≡ ok gen_state
    pub encoded : x.marshal_indent gen_state ≡ ok e.app_state
    pub validators_lem : x.write_validators x.last_block_height s ≡ ok e.validators
    pub params_lem : e.consensus_params ≡ x.get_consensus_params x.last_block_height s

  collect-IsExport :
      (modules : List String) (height : ℕ) (s : S) {e : ExportedApp ConsensusParams}
      → collect k x modules height s ≡ ok e
      → IsExport modules height s e
  unfolding collect
  collect-IsExport modules height s {e} h =
      let (g, e₁, f₁) =
        >>=-eq-ok (x.export_genesis_for_modules modules x.last_block_height s) _ h in
      let (t, e₂, f₂) = >>=-eq-ok (x.marshal_indent g) _ f₁ in
      let (vs, e₃, f₃) = >>=-eq-ok (x.write_validators x.last_block_height s) _ f₂ in
      let done = ok-injective f₃ in
      record {
        height_lem = sym (ap ExportedApp.height done);
        gen_state = g;
        exported = e₁;
        encoded = e₂ ∙ ap ok (ap ExportedApp.app_state done);
        validators_lem = e₃ ∙ ap ok (ap ExportedApp.validators done);
        params_lem = sym (ap ExportedApp.consensus_params done);
      }

  -- An export that succeeds gives the state as it was, under the height after the last block; or, for
  -- the height zero, the state that the preparation left, under the height 0.
  pub export_lem :
      (for_zero_height : Bool) (jail_allowed_addrs modules : List String) (s : S)
      {e : ExportedApp ConsensusParams}
      → export_app_state_and_validators k x for_zero_height jail_allowed_addrs modules s ≡ ok e
      → (for_zero_height ≡ false) × IsExport modules (x.last_block_height + 1) s e
        ⊎ (for_zero_height ≡ true)
          × ((s' : S) × (prep_for_zero_height_genesis k jail_allowed_addrs x.last_block_height s
                ≡ ok s')
              × IsExport modules 0 s' e)
  unfolding export_app_state_and_validators
  export_lem false jail_allowed_addrs modules s h =
      inl (refl, collect-IsExport modules (x.last_block_height + 1) s h)
  export_lem true jail_allowed_addrs modules s h =
      let (s', p, f) =
        >>=-eq-ok (prep_for_zero_height_genesis k jail_allowed_addrs x.last_block_height s) _ h in
      inr (refl, (s', p, collect-IsExport modules 0 s' f))
