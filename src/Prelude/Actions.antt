-- ===== src/Prelude/Actions.antt =====
-- Actions on a state: the disk of a command, the store of the chain. How a sequence of two of them
-- ends, by how the first of them ends.
use mathlib.Core.Path.{◌≡◌, refl, sym, ap, ◌∙◌}
use mathlib.Core.Bool.{Bool, true, false}
use mathlib.Core.Logic.{◌⊎◌, inl, inr}
use vector_chain.Prelude.Results.{
  Outcome, ok, fail, Failure, error, panic, fatal, or_panic, or_panic-eq-ok,
}

-- An action: how it ends, and the state as it leaves it.
abbrev pub Action : Type 0 → Type 0 → Type 0
Action D A = D → Outcome A × D

infixl 5 ◌>>=◌ ◌>>◌
abbrev pub ◌>>=◌ : {D A B : Type 0} → Action D A → (A → Action D B) → Action D B
◌>>=◌ m f d = let (r, d') = m d in elim r [ ok a ↦ f a d' | fail e ↦ (fail e, d') ]

abbrev pub ◌>>◌ : {D B : Type 0} → Action D (Unit {0}) → Action D B → Action D B
m >> n = m >>= λ _. n

module _ {D A : Type 0} where
  abbrev pub pure : A → Action D A
  pure a d = (ok a, d)

  -- A call that does not touch the state.
  abbrev pub lift : Outcome A → Action D A
  lift r d = (r, d)

abbrev recast : {D A B : Type 0} → Failure → Outcome B × D → Outcome A × D
recast x (ok b, d) = (fail x, d)
recast x (fail y, d) = (fail y, d)

module _ {D A B : Type 0} where
  -- An action that returns passes its value on.
  pub bind-passes :
      (m : Action D A) (f : A → Action D B) (d : D) {a : A} {d₁ : D}
      → m d ≡ (ok a, d₁)
      → (m >>= f) d ≡ f a d₁
  bind-passes m f d e =
      ap {B = Outcome B × D} (λ r. elim r.0 [ ok a ↦ f a r.1 | fail x ↦ (fail x, r.1) ]) e

  -- An action that fails passes its failure on.
  pub bind-fails :
      (m : Action D A) (f : A → Action D B) (d : D) {x : Failure} {d₁ : D}
      → m d ≡ (fail x, d₁)
      → (m >>= f) d ≡ (fail x, d₁)
  bind-fails m f d e =
      ap {B = Outcome B × D} (λ r. elim r.0 [ ok a ↦ f a r.1 | fail x ↦ (fail x, r.1) ]) e

  pub bind-ok :
      (m : Action D A) (f : A → Action D B) (d : D) {b : B} {d' : D}
      → (m >>= f) d ≡ (ok b, d')
      → (a : A) × (d₁ : D) × (m d ≡ (ok a, d₁)) × (f a d₁ ≡ (ok b, d'))
  bind-ok m f d {b} {d'} h = go (m d) refl h
    where
      go :
          (r : Outcome A × D)
          → m d ≡ r
          → (elim r.0 [ ok a ↦ f a r.1 | fail e ↦ (fail e, r.1) ]) ≡ (ok b, d')
          → (a : A) × (d₁ : D) × (m d ≡ (ok a, d₁)) × (f a d₁ ≡ (ok b, d'))
      go (ok a, d₁) e h = (a, d₁, e, h)
      go (fail x, d₁) e h = cc

  pub bind-fail :
      (m : Action D A) (f : A → Action D B) (d : D) {x : Failure} {d' : D}
      → (m >>= f) d ≡ (fail x, d')
      → (m d ≡ (fail x, d')) ⊎ ((a : A) × (d₁ : D) × (m d ≡ (ok a, d₁)) × (f a d₁ ≡ (fail x, d')))
  bind-fail m f d {x} {d'} h = go (m d) refl h
    where
      go :
          (r : Outcome A × D)
          → m d ≡ r
          → (elim r.0 [ ok a ↦ f a r.1 | fail e ↦ (fail e, r.1) ]) ≡ (fail x, d')
          → (m d ≡ (fail x, d'))
            ⊎ ((a : A) × (d₁ : D) × (m d ≡ (ok a, d₁)) × (f a d₁ ≡ (fail x, d')))
      go (ok a, d₁) e h = inr (a, d₁, e, h)
      go (fail y, d₁) e h = inl (e ∙ ap (recast x) h)

-- Two continuations that agree on what the first action returns.
pub bind-cong :
    {D A B : Type 0} (m : Action D A) (f g : A → Action D B) (d : D)
    → ((a : A) (d₁ : D) → m d ≡ (ok a, d₁) → f a d₁ ≡ g a d₁)
    → (m >>= f) d ≡ (m >>= g) d
bind-cong {D} {A} {B} m f g d h = go (m d) refl
  where
    go :
        (r : Outcome A × D)
        → m d ≡ r
        → ◌≡◌ {A = Outcome B × D}
            (elim r.0 [ ok a ↦ f a r.1 | fail e ↦ (fail e, r.1) ])
            (elim r.0 [ ok a ↦ g a r.1 | fail e ↦ (fail e, r.1) ])
    go (ok a, d₁) e = h a d₁ e
    go (fail x, d₁) e = refl

-- A sequence ends as its second action does, or with the failure of its first.
pub bind-cases :
    {D A B : Type 0} (m : Action D A) (f : A → Action D B) (d : D) {r : Outcome B} {d' : D}
    → (m >>= f) d ≡ (r, d')
    → ((a : A) × (d₁ : D) × (m d ≡ (ok a, d₁)) × (f a d₁ ≡ (r, d')))
      ⊎ ((x : Failure) × (m d ≡ (fail x, d')) × (r ≡ fail x))
bind-cases {D} {A} {B} m f d {r} {d'} h = go (m d) refl h
  where
    go :
        (p : Outcome A × D)
        → m d ≡ p
        → (elim p.0 [ ok a ↦ f a p.1 | fail e ↦ (fail e, p.1) ]) ≡ (r, d')
        → ((a : A) × (d₁ : D) × (m d ≡ (ok a, d₁)) × (f a d₁ ≡ (r, d')))
          ⊎ ((x : Failure) × (m d ≡ (fail x, d')) × (r ≡ fail x))
    go (ok a, d₁) e h = inl (a, d₁, e, h)
    go (fail x, d₁) e h = inr (x, e ∙ (λ i. (fail x, (h i).1)), sym (ap (λ p. p.0) h))

-- `if err != nil { panic(err) }` after an action.
unfoldable pub panicking : {D A : Type 0} → Action D A → Action D A
panicking m d = let (r, d') = m d in (or_panic r, d')

-- The caller gets an error.
abbrev pub is_error : Failure → Bool
is_error (error e) = true
is_error (panic e) = false
is_error (fatal e) = false

abbrev failure_is_error : {A : Type 0} → Bool → Outcome A → Bool
failure_is_error b (ok a) = b
failure_is_error b (fail x) = is_error x

pub or_panic-fail :
    {A : Type 0} (r : Outcome A) {x : Failure} → or_panic r ≡ fail x → is_error x ≡ false
or_panic-fail (ok a) h = cc
or_panic-fail (fail (error e)) h = sym (ap (failure_is_error true) h)
or_panic-fail (fail (panic e)) h = sym (ap (failure_is_error true) h)
or_panic-fail (fail (fatal e)) h = sym (ap (failure_is_error true) h)

pub panicking-fail :
    {D A : Type 0} (m : Action D A) (d : D) {x : Failure} {d' : D}
    → panicking m d ≡ (fail x, d')
    → is_error x ≡ false
unfolding panicking
panicking-fail m d h = or_panic-fail (m d).0 (ap (λ p. p.0) h)

pub panicking-ok :
    {D A : Type 0} (m : Action D A) (d : D) {a : A} {d' : D}
    → panicking m d ≡ (ok a, d')
    → m d ≡ (ok a, d')
unfolding panicking
panicking-ok {D} {A} m d {a} {d'} h = go (m d) refl h
  where
    go :
        (p : Outcome A × D)
        → m d ≡ p
        → ◌≡◌ {A = Outcome A × D} (or_panic p.0, p.1) (ok a, d')
        → m d ≡ (ok a, d')
    go (r, d₁) e h = e ∙ (λ i. (or_panic-eq-ok r (ap (λ p. p.0) h) i, (h i).1))
