-- ===== src/Prelude/Order.antt =====
-- One thing before another in a list.
use mathlib.Core.Path.{◌≡◌}
use mathlib.Core.Bool.{Bool, true, false}
use mathlib.Core.Logic.{inl, inr}
use mathlib.Core.List.{List, [], ◌∷◌, ◌++◌}
use vector_chain.Prelude.Tests.{if◌then◌else◌, Bool-cases, false_is_true}

module _ {ℓ} {A : Type ℓ} where
  -- Some member passes the test.
  pub data Some (p : A → Bool) : List A → Type ℓ where
    now : {x : A} {xs : List A} → p x ≡ true → Some p (x ∷ xs)
    rest : {x : A} {xs : List A} → Some p xs → Some p (x ∷ xs)

  -- Wherever a member passes `q`, one that passes `p` stands before it.
  abbrev pub Precedes : (A → Bool) → (A → Bool) → List A → Type ℓ
  Precedes p q xs =
      (before : List A) (d : A) (after : List A)
      → xs ≡ before ++ d ∷ after
      → q d ≡ true
      → Some p before

  unfoldable pub precedes : (A → Bool) → (A → Bool) → List A → Bool
  precedes p q [] = true
  precedes p q (x ∷ xs) = if q x then false else if p x then true else precedes p q xs

  abbrev tail_of : List A → List A
  tail_of [] = []
  tail_of (x ∷ xs) = xs

  abbrev head_test : (A → Bool) → List A → Bool
  head_test q [] = false
  head_test q (x ∷ xs) = q x

  -- The test of one pass over the list decides the order.
  pub precedes→Precedes : (p q : A → Bool) (xs : List A) → precedes p q xs ≡ true → Precedes p q xs
  unfolding precedes
  precedes→Precedes p q [] h before d after e u = absurd (not_nil before e)
    where
      not_nil : (l : List A) → ◌≡◌ {A = List A} [] (l ++ d ∷ after) → ⊥
      not_nil [] e = cc
      not_nil (x ∷ l) e = cc
  precedes→Precedes p q (x ∷ xs) h [] d after e u =
      let same : q x ≡ q d = λ i. head_test q (e i) in cc
  precedes→Precedes p q (x ∷ xs) h (y ∷ before) d after e u =
      let tails : xs ≡ before ++ d ∷ after = λ i. tail_of (e i) in
      let heads : p x ≡ p y = λ i. head_test p (e i) in
      elim (Bool-cases (q x)) [
        | inl bad ↦ absurd (false_is_true (rw bad at h))
        | inr fine ↦ elim (Bool-cases (p x)) [
          | inl yes' ↦ now (cc)
          | inr no' ↦
              rest (precedes→Precedes p q xs (rw no' at (rw fine at h)) before d after tails u)
        ]
      ]
