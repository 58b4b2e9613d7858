-- ===== src/Export/Pool.antt =====
-- What the preparation of app/export.go donates to the community pool.
use vector_chain.Prelude.{
  ℕ, ◌+◌, arith, ◌≡◌, ◌≢◌, refl, sym, ap, ◌∙◌, inl, inr, str_eq, eq_iff, Bool, false, List, [], ◌∷◌,
  All, if◌then◌else◌, Bool-cases, Outcome-cases, Outcome, ok, fail, >>=-eq-ok, ok-injective,
  or_panic, or_panic-eq-ok,
}
use vector_chain.Export.{Bytes, Validator, Callback, Keepers}
use vector_chain.Export.Prepare.{go_on, reinit_validator}
use vector_chain.Export.Visit.{visit}

-- The community pool and the outstanding rewards of a validator, as the keepers keep them: `amount`
-- measures coins. The hook of a new validator starts it with no outstanding rewards.
pub record PoolLaws {S Coins : Type 0} (k : Keepers S Coins) (amount : Coins → ℕ) : Type 0 where
  pub pool : S → ℕ
  pub outstanding : S → Bytes → ℕ
  pub validators : S → List Validator
  pub iterate_lem :
      (f : Callback S Validator) (h : ℕ) (s : S)
      → k.iterate_validators f h s ≡ visit f (validators s) s
  pub add_lem : (a b : Coins) → amount (k.add_coins a b) ≡ amount a + amount b
  pub get_lem : (h : ℕ) (s : S) (c : Coins) → k.fee_pool_get h s ≡ ok c → amount c ≡ pool s
  pub outstanding_lem :
      (a : Bytes) (h : ℕ) (s : S) (c : Coins)
      → k.get_validator_outstanding_rewards_coins a h s ≡ ok c
      → amount c ≡ outstanding s a
  pub set_lem :
      (c : Coins) (h : ℕ) (s s' : S)
      → k.fee_pool_set c h s ≡ ok s'
      → (pool s' ≡ amount c) × ((b : Bytes) → outstanding s' b ≡ outstanding s b)
  pub created_lem :
      (a : Bytes) (h : ℕ) (s s' : S)
      → k.after_validator_created a h s ≡ ok s'
      → (pool s' ≡ pool s)
        × ((b : Bytes) → outstanding s' b ≡ (if str_eq b a then 0 else outstanding s b))

module _ {S Coins : Type 0} (k : Keepers S Coins) (amount : Coins → ℕ)
    (laws : PoolLaws k amount) where
  -- The outstanding rewards at an address that was decoded.
  abbrev owed_at : S → Outcome Bytes → ℕ
  owed_at s (ok b) = laws.outstanding s b
  owed_at s (fail x) = 0

  abbrev pub owed : S → Validator → ℕ
  owed s v = owed_at s (k.validator_address_codec v.operator_address)

  unfoldable pub total_owed : S → List Validator → ℕ
  total_owed s [] = 0
  total_owed s (v ∷ vs) = owed s v + total_owed s vs

  -- The two do not decode to one address.
  abbrev pub Apart : Validator → Validator → Type 0
  Apart v w =
      (b : Bytes)
      → k.validator_address_codec v.operator_address ≡ ok b
      → k.validator_address_codec w.operator_address ≢ ok b

  unfoldable pub Distinct : List Validator → Type 0
  Distinct [] = Unit
  Distinct (v ∷ vs) = All (Apart v) vs × Distinct vs

  go_on-ok : (m : Outcome S) {r : Bool × S} → go_on m ≡ ok r → (r.0 ≡ false) × (m ≡ ok r.1)
  go_on-ok (ok s) h =
      let same = ok-injective h in (sym (ap (λ p. p.0) same), ap ok (ap (λ p. p.1) same))
  go_on-ok (fail x) h = cc

  -- One validator's outstanding rewards go to the pool, and the others' stay.
  reinit_validator-pool :
      (h : ℕ) (v : Validator) (s : S) (r : Bool × S)
      → reinit_validator k h v s ≡ ok r
      → (r.0 ≡ false)
        × (laws.pool r.1 ≡ laws.pool s + owed s v)
        × ((w : Validator) → Apart v w → owed r.1 w ≡ owed s w)
  unfolding reinit_validator
  reinit_validator-pool h v s r e =
      let (b, e₁, f₁) = >>=-eq-ok (or_panic (k.validator_address_codec v.operator_address)) _ e in
      let (scraps, e₂, f₂) =
        >>=-eq-ok (or_panic (k.get_validator_outstanding_rewards_coins b h s)) _ f₁ in
      let (fees, e₃, f₃) = >>=-eq-ok (or_panic (k.fee_pool_get h s)) _ f₂ in
      let (s₁, e₄, f₄) = >>=-eq-ok (or_panic (k.fee_pool_set (k.add_coins fees scraps) h s)) _ f₃ in
      let (goes, e₅) = go_on-ok (or_panic (k.after_validator_created b h s₁)) f₄ in
      let decoded = or_panic-eq-ok (k.validator_address_codec v.operator_address) e₁ in
      let has = laws.outstanding_lem b h s scraps (or_panic-eq-ok _ e₂) in
      let held = laws.get_lem h s fees (or_panic-eq-ok _ e₃) in
      let (set, kept) = laws.set_lem (k.add_coins fees scraps) h s s₁ (or_panic-eq-ok _ e₄) in
      let (same, reset) = laws.created_lem b h s₁ r.1 (or_panic-eq-ok _ e₅) in
      let mine : owed s v ≡ laws.outstanding s b = ap (owed_at s) decoded in
      (
        goes,
        omega (arith, same, set, laws.add_lem fees scraps, has, held, mine),
        λ w other. elim (Outcome-cases (k.validator_address_codec w.operator_address)) [
          | inr (x, failed) ↦ ap (owed_at r.1) failed ∙ sym (ap (owed_at s) failed)
          | inl (c, found) ↦
              ap (owed_at r.1) found
              ∙ (reset c
                  ∙ (elsewhere b c s₁ (λ e. other b decoded (found ∙ ap ok e))
                      ∙ (kept c ∙ sym (ap (owed_at s) found))))
        ],
      )
    where
      elsewhere :
          (b c : Bytes) (s₁ : S)
          → (c ≡ b → ⊥)
          → (if str_eq c b then 0 else laws.outstanding s₁ c) ≡ laws.outstanding s₁ c
      elsewhere b c s₁ ne = elim (Bool-cases (str_eq c b)) [
        | inl same ↦ absurd (ne ((eq_iff c b).0 same))
        | inr differ ↦ rw differ refl
      ]

  total_owed-carry :
      (v : Validator) (vs : List Validator) (s t : S)
      → All (Apart v) vs
      → ((w : Validator) → Apart v w → owed t w ≡ owed s w)
      → total_owed t vs ≡ total_owed s vs
  unfolding total_owed
  total_owed-carry v [] s t apart kept = refl
  total_owed-carry v (w ∷ vs) s t apart kept =
      omega (arith, kept w apart.0, total_owed-carry v vs s t apart.1 kept)

  visit-pool :
      (h : ℕ) (vs : List Validator) (s : S) {s' : S}
      → Distinct vs
      → visit (reinit_validator k h) vs s ≡ ok s'
      → laws.pool s' ≡ laws.pool s + total_owed s vs
  unfolding total_owed Distinct
  visit-pool h [] s distinct e = omega (arith, ap laws.pool (sym (ok-injective e)))
  visit-pool h (v ∷ vs) s distinct e =
      let (r, e₁, f₁) = >>=-eq-ok (reinit_validator k h v s) _ e in
      let (goes, donated, kept) = reinit_validator-pool h v s r e₁ in
      omega (
        arith,
        donated,
        total_owed-carry v vs s r.1 distinct.0 kept,
        visit-pool h vs r.1 distinct.1 (rw goes at f₁),
      )

  -- Where the keepers keep a community pool and outstanding rewards, and the validators have addresses
  -- of their own: the iteration that initializes the validators anew, when it succeeds, puts into the
  -- community pool what was outstanding to all of them together, and nothing else.
  pub reinit_validator_donates :
      (h : ℕ) (s s' : S)
      → Distinct (laws.validators s)
      → k.iterate_validators (reinit_validator k h) h s ≡ ok s'
      → laws.pool s' ≡ laws.pool s + total_owed s (laws.validators s)
  reinit_validator_donates h s s' distinct e =
      visit-pool h (laws.validators s) s distinct
        (sym (laws.iterate_lem (reinit_validator k h) h s) ∙ e)
