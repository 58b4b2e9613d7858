-- ===== src/Export/Laws.antt =====
-- What the preparation relies on of the keepers: views of the store, and how the calls change them.
use vector_chain.Prelude.{ℕ, ◌≡◌, ◌≢◌, ◌⊎◌, String, str_eq, List, if◌then◌else◌, ok}
use vector_chain.Export.{
  Bytes, Redelegation, UnbondingDelegation, Validator, SigningInfo, Callback, Keepers,
}
use vector_chain.Export.Visit.{Member, visit}

-- The key under which an element is stored.
abbrev pub redelegation_key : Redelegation → String × String × String
redelegation_key r = (r.delegator_address, r.validator_src_address, r.validator_dst_address)

abbrev pub unbonding_key : UnbondingDelegation → String × String
unbonding_key u = (u.delegator_address, u.validator_address)

abbrev pub info_key : Bytes × SigningInfo → Bytes
info_key (addr, info) = addr

-- Writing `v` into a collection: what is listed afterwards is `v`, or was listed before under
-- another key.
abbrev pub Writes : {V K : Type 0} → (V → K) → V → List V → List V → Type 0
Writes {V} key v before after =
    (w : V) → Member w after → (w ≡ v) ⊎ (Member w before × (key w ≢ key v))

pub record Laws {S Coins : Type 0} (k : Keepers S Coins) : Type 0 where
  -- the collections of the store
  pub redelegations : S → List Redelegation
  pub unbonding_delegations : S → List UnbondingDelegation
  pub signing_infos : S → List (Bytes × SigningInfo)
  -- an iteration calls back on each element listed at its start, until it is told to stop
  pub iterate_redelegations_lem :
      (f : Callback S Redelegation) (h : ℕ) (s : S)
      → k.iterate_redelegations f h s ≡ visit f (redelegations s) s
  pub iterate_unbonding_delegations_lem :
      (f : Callback S UnbondingDelegation) (h : ℕ) (s : S)
      → k.iterate_unbonding_delegations f h s ≡ visit f (unbonding_delegations s) s
  pub iterate_validator_signing_infos_lem :
      (f : Callback S (Bytes × SigningInfo)) (h : ℕ) (s : S)
      → k.iterate_validator_signing_infos f h s ≡ visit f (signing_infos s) s
  -- a setter writes its own collection
  pub set_redelegation-Writes :
      (r : Redelegation) (h : ℕ) (s s' : S)
      → k.set_redelegation r h s ≡ ok s'
      → Writes redelegation_key r (redelegations s) (redelegations s')
  pub set_unbonding_delegation-Writes :
      (u : UnbondingDelegation) (h : ℕ) (s s' : S)
      → k.set_unbonding_delegation u h s ≡ ok s'
      → Writes unbonding_key u (unbonding_delegations s) (unbonding_delegations s')
  pub set_validator_signing_info-Writes :
      (a : Bytes) (i : SigningInfo) (h : ℕ) (s s' : S)
      → k.set_validator_signing_info a i h s ≡ ok s'
      → Writes info_key (a, i) (signing_infos s) (signing_infos s')
  -- and the calls that come after it leave the other collections alone
  pub set_unbonding_delegation-redelegations :
      (u : UnbondingDelegation) (h : ℕ) (s s' : S)
      → k.set_unbonding_delegation u h s ≡ ok s'
      → redelegations s' ≡ redelegations s
  pub set_validator_keeps :
      (v : Validator) (h : ℕ) (s s' : S)
      → k.set_validator v h s ≡ ok s'
      → (redelegations s' ≡ redelegations s) × (unbonding_delegations s' ≡ unbonding_delegations s)
  pub apply_updates_keeps :
      (h : ℕ) (s s' : S)
      → k.apply_and_return_validator_set_updates h s ≡ ok s'
      → (redelegations s' ≡ redelegations s) × (unbonding_delegations s' ≡ unbonding_delegations s)
  pub set_validator_signing_info_keeps :
      (a : Bytes) (i : SigningInfo) (h : ℕ) (s s' : S)
      → k.set_validator_signing_info a i h s ≡ ok s'
      → (redelegations s' ≡ redelegations s) × (unbonding_delegations s' ≡ unbonding_delegations s)

-- The validators by address: a validator that was read and is written back, with its operator
-- unchanged, is the one found at that address, and those at the other addresses stay.
pub record ValidatorLaws {S Coins : Type 0} (k : Keepers S Coins) : Type 0 where
  pub set_validator_lem :
      (a b : Bytes) (h : ℕ) (v v' : Validator) (s s' : S)
      → k.get_validator a h s ≡ ok v
      → v'.operator_address ≡ v.operator_address
      → k.set_validator v' h s ≡ ok s'
      → k.get_validator b h s' ≡ (if str_eq b a then ok v' else k.get_validator b h s)
