-- ===== src/Export/Jail.antt =====
-- Which validators the preparation of app/export.go jails.
use vector_chain.Prelude.{
  ℕ, ◌≡◌, refl, inl, inr, String, str_eq, eq_iff, Bool, true, false, not, ◌&&◌, ◌||◌, List, [], ◌∷◌,
  contains, if◌then◌else◌, Outcome, ok, fail, error, panic, fatal, >>=-eq-ok, ok-injective,
  or_panic, or_panic-eq-ok, ap, ◌∙◌, Bool-cases, arith,
}
use vector_chain.Export.{Bytes, Validator, Keepers}
use vector_chain.Export.Prepare.{reset_validator, reset_validators, expect_validator}
use vector_chain.Export.Laws.{ValidatorLaws}

module _ {S Coins : Type 0} (k : Keepers S Coins) where
  expect_validator-eq-ok :
      (r : Outcome Validator) {v : Validator} → expect_validator k r ≡ ok v → r ≡ ok v
  expect_validator-eq-ok (ok v) e = e
  expect_validator-eq-ok (fail (error x)) e = cc
  expect_validator-eq-ok (fail (panic x)) e = e
  expect_validator-eq-ok (fail (fatal x)) e = e

  -- The reset of a validator that has been reset changes nothing.
  reset_validator_idem :
      (allowed : List String) (a : Bytes) (v : Validator)
      → reset_validator k allowed a (reset_validator k allowed a v) ≡ reset_validator k allowed a v
  unfolding reset_validator
  reset_validator_idem [] a v = refl
  reset_validator_idem (x ∷ xs) a v = ground arith

  -- What a validator that is found becomes.
  abbrev pub after_reset : List String → Bytes → Bool → Outcome Validator → Outcome Validator
  after_reset allowed b listed (ok v) = ok (if listed then reset_validator k allowed b v else v)
  after_reset allowed b listed (fail e) = fail e

  module _ (laws : ValidatorLaws k) where
    reset_validators-after :
        (allowed : List String) (addrs : List Bytes) (h : ℕ) (s : S) {s' : S} (b : Bytes)
        → reset_validators k allowed addrs h s ≡ ok s'
        → k.get_validator b h s' ≡ after_reset allowed b (contains b addrs) (k.get_validator b h s)
    unfolding reset_validators
    reset_validators-after allowed [] h s b e =
        rw (← ok-injective e) (unchanged (k.get_validator b h s))
      where
        unchanged : (r : Outcome Validator) → r ≡ after_reset allowed b false r
        unchanged (ok v) = refl
        unchanged (fail x) = refl
    reset_validators-after allowed (addr ∷ addrs) h s {s'} b e =
        let (v, e₁, f₁) = >>=-eq-ok (expect_validator k (k.get_validator addr h s)) _ e in
        let (s₁, e₂, f₂) =
          >>=-eq-ok (or_panic (k.set_validator (reset_validator k allowed addr v) h s)) _ f₁ in
        let found = expect_validator-eq-ok (k.get_validator addr h s) e₁ in
        let law =
          laws.set_validator_lem addr b h v (reset_validator k allowed addr v) s s₁ found
            (unfold reset_validator in refl) (or_panic-eq-ok _ e₂) in
        reset_validators-after allowed addrs h s₁ b f₂ ∙ elim (Bool-cases (str_eq b addr)) [
          | inl same ↦
              let p : b ≡ addr = (eq_iff b addr).0 same in
              rw (law, same, p, found) (again v (contains addr addrs))
          | inr other ↦ rw (law, other)
        ]
      where
        again :
            (v : Validator) (c : Bool)
            → after_reset allowed addr c (ok (reset_validator k allowed addr v))
              ≡ ok (reset_validator k allowed addr v)
        again v true = ap ok (reset_validator_idem allowed addr v)
        again v false = refl

    abbrev is_nonempty : List String → Bool
    is_nonempty [] = false
    is_nonempty (_ ∷ _) = true

    -- The validator as the documentation of the preparation has it.
    abbrev pub expected : List String → Bytes → Validator → Validator
    expected allowed b v = record v {
      unbonding_height = 0;
      jailed = v.jailed || (is_nonempty allowed && not (contains (k.val_address_string b) allowed));
    }

    reset_validator-eq :
        (allowed : List String) (b : Bytes) (v : Validator)
        → reset_validator k allowed b v ≡ expected allowed b v
    unfolding reset_validator
    reset_validator-eq [] b v = ground arith
    reset_validator-eq (x ∷ xs) b v = ground arith

    -- If writing a validator back changes what is found at its address and nowhere else, then after
    -- the loop over the validators, a validator at an address of the iteration has the unbonding
    -- height 0 and is jailed exactly when it was before, or when an allow list is given and its
    -- rendered address is not on it; its other fields, and the validators at all other addresses,
    -- are as they were.
    pub reset_validators_jails :
        (allowed : List String) (addrs : List Bytes) (h : ℕ) (s : S) {s' : S} (b : Bytes)
        (v : Validator)
        → reset_validators k allowed addrs h s ≡ ok s'
        → k.get_validator b h s ≡ ok v
        → k.get_validator b h s' ≡ ok (if contains b addrs then expected allowed b v else v)
    reset_validators_jails allowed addrs h s b v e found =
        reset_validators-after allowed addrs h s b e ∙ rw (found, reset_validator-eq allowed b v)
