-- ===== src/Export/Heights.antt =====
-- After the preparation of app/export.go no height of the old chain is left in the redelegations, in
-- the unbonding delegations and in the signing infos.
use vector_chain.Prelude.{
  ℕ, ◌≡◌, refl, inl, inr, String, Bool, false, List, [], ◌∷◌, map, All, All-map, All-of, Outcome,
  ok, fail, error, panic, fatal, >>=-eq-ok, ok-injective, or_panic, or_panic-eq-ok, or_fatal,
  or_fatal-eq-ok, sym, ap, ◌∙◌, subst,
}
use vector_chain.Export.{
  Bytes, Entry, Redelegation, UnbondingDelegation, SigningInfo, Callback, Keepers,
}
use vector_chain.Export.Prepare.{
  go_on, zero_height, reset_redelegation, reset_unbonding_delegation, reset_redelegations,
  reset_unbonding_delegations, reset_validator, reset_validators, expect_validator,
  reset_signing_info, allowed_addrs, prep_distribution, prep_staking, prep_slashing, after_close,
  prep_for_zero_height_genesis,
}
use vector_chain.Export.Visit.{Member, Rewrites, visit-all, visit-keeps}
use vector_chain.Export.Laws.{redelegation_key, unbonding_key, info_key, Writes, Laws}

go_on-eq-ok :
    {S : Type 0} (m : Outcome S) {r : Bool × S} → go_on m ≡ ok r → (r.0 ≡ false) × (m ≡ ok r.1)
go_on-eq-ok (ok s) h = let e = sym (ok-injective h) in (ap (λ p. p.0) e, ap (λ p. ok p.1) (sym e))
go_on-eq-ok (fail x) h = cc

-- A callback that writes the element back, changed by `change`.
module _ {S V : Type 0} (set : V → S → Outcome S) (change : V → V) where
  abbrev setter : Callback S V
  setter v s = go_on (or_panic (set (change v) s))

  setter-eq-ok :
      (v : V) (s : S) (r : Bool × S)
      → setter v s ≡ ok r
      → (r.0 ≡ false) × (set (change v) s ≡ ok r.1)
  setter-eq-ok v s r h =
      let (goes, e) = go_on-eq-ok (or_panic (set (change v) s)) h in
      (goes, or_panic-eq-ok (set (change v) s) e)

  setter-Rewrites :
      {K : Type 0} (listed : S → List V) (key : V → K) (P : V → Type 0)
      → ((v : V) (s s' : S) → set v s ≡ ok s' → Writes key v (listed s) (listed s'))
      → ((v : V) → key (change v) ≡ key v)
      → ((v : V) → P (change v))
      → Rewrites listed key P setter
  setter-Rewrites listed key P writes same good v s r h =
      let (goes, e) = setter-eq-ok v s r h in
      (
        goes,
        λ w m. elim (writes (change v) s r.1 e w m) [
          | inl written ↦ inl (subst P (sym written) (good v))
          | inr (before, other) ↦ inr (before, λ p. other (p ∙ sym (same v)))
        ],
      )

abbrev pub HasZeroHeights : List Entry → Type 0
HasZeroHeights = All (λ e. e.creation_height ≡ 0)

zero_heights : (es : List Entry) → HasZeroHeights (map zero_height es)
zero_heights es = All-map (λ e. e.creation_height ≡ 0) zero_height es (All-of _ (λ e. refl) es)

module _ {S Coins : Type 0} (k : Keepers S Coins) (laws : Laws k) where
  open laws use {redelegations, unbonding_delegations, signing_infos}

  -- Every redelegation and every unbonding delegation of the store has zero heights.
  pub record AreZero (s : S) : Type 0 where
    pub reds : (r : Redelegation) → Member r (redelegations s) → HasZeroHeights r.entries
    pub ubds :
        (u : UnbondingDelegation) → Member u (unbonding_delegations s) → HasZeroHeights u.entries

  AreZero-carry :
      {s s' : S}
      → (redelegations s' ≡ redelegations s) × (unbonding_delegations s' ≡ unbonding_delegations s)
      → AreZero s
      → AreZero s'
  AreZero-carry (er, eu) z = record {
    reds = λ r m. z.reds r (rw er at m);
    ubds = λ u m. z.ubds u (rw eu at m);
  }

  reset_validators_keeps :
      (allowed : List String) (addrs : List Bytes) (h : ℕ) (s : S) {s' : S}
      → reset_validators k allowed addrs h s ≡ ok s'
      → AreZero s
      → AreZero s'
  unfolding reset_validators
  reset_validators_keeps allowed [] h s e z = subst AreZero (ok-injective e) z
  reset_validators_keeps allowed (addr ∷ addrs) h s e z =
      let (v, _, e₁) = >>=-eq-ok (expect_validator k (k.get_validator addr h s)) _ e in
      let (s₁, set, e₂) =
        >>=-eq-ok (or_panic (k.set_validator (reset_validator k allowed addr v) h s)) _ e₁ in
      reset_validators_keeps allowed addrs h s₁ e₂
        (AreZero-carry (laws.set_validator_keeps _ h s s₁ (or_panic-eq-ok _ set)) z)

  reset_reds :
      (h : ℕ) (s : S) {s' : S}
      → k.iterate_redelegations (reset_redelegations k h) h s ≡ ok s'
      → (r : Redelegation) → Member r (redelegations s')
      → HasZeroHeights r.entries
  unfolding reset_redelegations reset_redelegation
  reset_reds h s e =
      visit-all redelegations redelegation_key (λ r. HasZeroHeights r.entries) _
        (setter-Rewrites (λ r s. k.set_redelegation r h s) reset_redelegation redelegations
          redelegation_key (λ r. HasZeroHeights r.entries)
          (λ r s s'. laws.set_redelegation-Writes r h s s') (λ r. refl)
          (λ r. zero_heights r.entries))
        s (sym (laws.iterate_redelegations_lem _ h s) ∙ e)

  reset_ubds :
      (h : ℕ) (s : S) {s' : S}
      → k.iterate_unbonding_delegations (reset_unbonding_delegations k h) h s ≡ ok s'
      → (redelegations s' ≡ redelegations s)
        × ((u : UnbondingDelegation)
            → Member u (unbonding_delegations s')
            → HasZeroHeights u.entries)
  unfolding reset_unbonding_delegations reset_unbonding_delegation
  reset_ubds h s e =
      let visited = sym (laws.iterate_unbonding_delegations_lem _ h s) ∙ e in
      let set = λ (u : UnbondingDelegation) (s : S). k.set_unbonding_delegation u h s in
      (
        visit-keeps redelegations _
            (λ u s r c.
              laws.set_unbonding_delegation-redelegations _ h s r.1
                (setter-eq-ok set reset_unbonding_delegation u s r c).1)
            _ s visited,
        visit-all unbonding_delegations unbonding_key (λ u. HasZeroHeights u.entries) _
            (setter-Rewrites set reset_unbonding_delegation unbonding_delegations unbonding_key
              (λ u. HasZeroHeights u.entries)
              (λ u s s'. laws.set_unbonding_delegation-Writes u h s s') (λ u. refl)
              (λ u. zero_heights u.entries))
            s visited,
      )

  prep_staking-AreZero :
      (allowed : List String) (h : ℕ) (s : S) {s' : S}
      → prep_staking k allowed h s ≡ ok s'
      → AreZero s'
  unfolding prep_staking
  prep_staking-AreZero allowed h s e =
      let (s₁, e₁, f₁) =
        >>=-eq-ok (or_panic (k.iterate_redelegations (reset_redelegations k h) h s)) _ e in
      let (s₂, e₂, f₂) =
        >>=-eq-ok
          (or_panic (k.iterate_unbonding_delegations (reset_unbonding_delegations k h) h s₁)) _
          f₁ in
      let reds = reset_reds h s (or_panic-eq-ok _ e₁) in
      let (same, ubds) = reset_ubds h s₁ (or_panic-eq-ok _ e₂) in
      reset_validators_keeps allowed (k.validators_keys s₂) h s₂ f₂
        (record { reds = λ r m. reds r (rw same at m); ubds = ubds })

  abbrev start_zero : Bytes × SigningInfo → Bytes × SigningInfo
  start_zero (addr, info) = (addr, record info { start_height = 0 })

  reset_infos :
      (h : ℕ) (s : S) {s' : S}
      → k.iterate_validator_signing_infos (reset_signing_info k h) h s ≡ ok s'
      → (redelegations s' ≡ redelegations s)
        × (unbonding_delegations s' ≡ unbonding_delegations s)
        × ((i : Bytes × SigningInfo) → Member i (signing_infos s') → i.1.start_height ≡ 0)
  unfolding reset_signing_info
  reset_infos h s e =
      let visited = sym (laws.iterate_validator_signing_infos_lem _ h s) ∙ e in
      let set = λ (i : Bytes × SigningInfo) (s : S). k.set_validator_signing_info i.0 i.1 h s in
      let keeps =
        λ (i : Bytes × SigningInfo) (s : S) (r : Bool × S) (c : setter set start_zero i s ≡ ok r).
          laws.set_validator_signing_info_keeps _ _ h s r.1
            (setter-eq-ok set start_zero i s r c).1 in
      (
        visit-keeps redelegations _ (λ i s r c. (keeps i s r c).0) _ s visited,
        visit-keeps unbonding_delegations _ (λ i s r c. (keeps i s r c).1) _ s visited,
        visit-all signing_infos info_key (λ i. i.1.start_height ≡ 0) _
            (setter-Rewrites set start_zero signing_infos info_key (λ i. i.1.start_height ≡ 0)
              (λ i s s'. laws.set_validator_signing_info-Writes i.0 i.1 h s s') (λ i. refl)
              (λ i. refl))
            s visited,
      )

  prep_slashing_zero :
      (h : ℕ) (s : S) {s' : S}
      → prep_slashing k h s ≡ ok s'
      → AreZero s
      → AreZero s'
        × ((i : Bytes × SigningInfo) → Member i (signing_infos s') → i.1.start_height ≡ 0)
  unfolding prep_slashing
  prep_slashing_zero h s e z =
      let (s₁, e₁, f₁) = >>=-eq-ok (or_fatal (k.apply_and_return_validator_set_updates h s)) _ e in
      let (reds, ubds, infos) = reset_infos h s₁ (or_panic-eq-ok _ f₁) in
      (
        AreZero-carry (reds, ubds)
            (AreZero-carry (laws.apply_updates_keeps h s s₁ (or_fatal-eq-ok _ e₁)) z),
        infos,
      )

  after_close_zero :
      (r : Outcome (Unit {0})) (h : ℕ) (s : S) {s' : S}
      → after_close k r h s ≡ ok s'
      → AreZero s
      → AreZero s'
  after_close_zero (ok _) h s e z = (prep_slashing_zero h s e z).0
  after_close_zero (fail (error x)) h s e z = subst AreZero (ok-injective e) z
  after_close_zero (fail (panic x)) h s e z = cc
  after_close_zero (fail (fatal x)) h s e z = cc

  prep-eq-ok :
      (jail_allowed_addrs : List String) (h : ℕ) (s : S) {s' : S}
      → prep_for_zero_height_genesis k jail_allowed_addrs h s ≡ ok s'
      → (s₃ : S) × AreZero s₃ × (after_close k (k.close_iterator s₃) h s₃ ≡ ok s')
  unfolding prep_for_zero_height_genesis
  prep-eq-ok jail_allowed_addrs h s e =
      let (s₁, _, f₁) = >>=-eq-ok (k.assert_invariants h s) _ e in
      let (allowed, _, f₂) = >>=-eq-ok (allowed_addrs k jail_allowed_addrs) _ f₁ in
      let (s₂, _, f₃) = >>=-eq-ok (prep_distribution k s₁) _ f₂ in
      let (s₃, e₃, f₄) = >>=-eq-ok (prep_staking k allowed h s₂) _ f₃ in
      (s₃, prep_staking-AreZero allowed h s₂ e₃, f₄)

  -- If the keepers iterate over what they list and their setters write one element, then after a
  -- preparation that comes to its end, on any path, each entry of each redelegation and of each
  -- unbonding delegation in the store has the creation height 0.
  pub prep_zero_creation_heights :
      (jail_allowed_addrs : List String) (h : ℕ) (s : S) {s' : S}
      → prep_for_zero_height_genesis k jail_allowed_addrs h s ≡ ok s'
      → AreZero s'
  prep_zero_creation_heights jail_allowed_addrs h s e =
      let (s₃, z, f) = prep-eq-ok jail_allowed_addrs h s e in
      after_close_zero (k.close_iterator s₃) h s₃ f z

  -- If the keepers iterate over what they list and their setters write one element, and the iterator
  -- over the validators closes, then after a preparation that comes to its end each signing info in
  -- the store has the start height 0.
  pub prep_zero_start_heights :
      (jail_allowed_addrs : List String) (h : ℕ) (s : S) {s' : S}
      → ((t : S) → k.close_iterator t ≡ ok tt)
      → prep_for_zero_height_genesis k jail_allowed_addrs h s ≡ ok s'
      → (i : Bytes × SigningInfo) → Member i (signing_infos s')
      → i.1.start_height ≡ 0
  prep_zero_start_heights jail_allowed_addrs h s closes e i m =
      let (s₃, z, f) = prep-eq-ok jail_allowed_addrs h s e in
      (prep_slashing_zero h s₃ (rw (closes s₃) at f) z).1 i m
