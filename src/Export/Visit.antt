-- ===== src/Export/Visit.antt =====
-- Iterations of a keeper over a collection, with a callback that rewrites each element under its own
-- key: in the end every element has been rewritten.
use vector_chain.Prelude.{
  ◌≡◌, ◌≢◌, ◌⊎◌, inl, inr, Bool, false, List, [], ◌∷◌, if◌then◌else◌, Outcome, ok, ◌>>=◌, >>=-eq-ok,
  sym, subst, ok-injective, map, ap, Bool-cases, ◌∙◌,
}
use vector_chain.Export.{Callback}

-- `a` stands in the list.
pub data Member {ℓ} {A : Type ℓ} (a : A) : List A → Type ℓ where
  first : {x : A} {xs : List A} → a ≡ x → Member a (x ∷ xs)
  later : {x : A} {xs : List A} → Member a xs → Member a (x ∷ xs)

-- The callback on each element in turn, until it says to stop.
abbrev pub visit : {S V : Type 0} → Callback S V → List V → S → Outcome S
visit f [] s = ok s
visit f (v ∷ vs) s = do (stop, s') ← f v s; let rest = visit f vs s'; if stop then ok s' else rest

-- What a rewriting callback does in one call: it goes on, and an element listed afterwards is good,
-- or was listed before under another key.
abbrev pub Rewrites :
    {S V K : Type 0} → (S → List V) → (V → K) → (V → Type 0) → Callback S V → Type 0
Rewrites {S} {V} listed key P f =
    (v : V) (s : S) (r : Bool × S)
    → f v s ≡ ok r
    → (r.0 ≡ false)
      × ((w : V) → Member w (listed r.1) → P w ⊎ (Member w (listed s) × (key w ≢ key v)))

module _ {S V K : Type 0} (listed : S → List V) (key : V → K) (P : V → Type 0) (f : Callback S V)
    (rewrites : Rewrites listed key P f) where
  -- Every element listed is good, or its key is still to come.
  abbrev Pending : List V → S → Type 0
  Pending vs s = (w : V) → Member w (listed s) → P w ⊎ Member (key w) (map key vs)

  Pending-step :
      (v : V) (vs : List V) (s : S) (r : Bool × S)
      → f v s ≡ ok r
      → Pending (v ∷ vs) s
      → Pending vs r.1
  Pending-step v vs s r e inv w m = elim ((rewrites v s r e).1 w m) [
    | inl good ↦ inl good
    | inr (before, other) ↦ elim (inv w before) [
      | inl good ↦ inl good
      | inr (first same) ↦ absurd (other same)
      | inr (later waits) ↦ inr waits
    ]
  ]

  visit-Pending :
      (vs : List V) (s : S) {s' : S} → visit f vs s ≡ ok s' → Pending vs s → Pending [] s'
  visit-Pending [] s h inv = subst (Pending []) (ok-injective h) inv
  visit-Pending (v ∷ vs) s h inv =
      let (r, e, g) = >>=-eq-ok (f v s) _ h in
      visit-Pending vs r.1 (rw ((rewrites v s r e).0) at g) (Pending-step v vs s r e inv)

  Member-map : {w : V} {vs : List V} → Member w vs → Member (key w) (map key vs)
  Member-map (first e) = first (ap key e)
  Member-map (later m) = later (Member-map m)

  -- After an iteration over all that is listed at its start, all that is listed is good.
  pub visit-all :
      (s : S) {s' : S} → visit f (listed s) s ≡ ok s' → (w : V) → Member w (listed s') → P w
  visit-all s h w m = elim (visit-Pending (listed s) s h (λ v n. inr (Member-map n)) w m) [
    | inl good ↦ good
    | inr impossible ↦ absurd (elim impossible [ ])
  ]

-- A callback that leaves a view of the state alone at every call leaves it alone over a visit.
pub visit-keeps :
    {S V B : Type 0} (view : S → B) (f : Callback S V)
    → ((v : V) (s : S) (r : Bool × S) → f v s ≡ ok r → view r.1 ≡ view s)
    → (vs : List V) (s : S) {s' : S} → visit f vs s ≡ ok s'
    → view s' ≡ view s
visit-keeps view f keeps [] s h = ap view (sym (ok-injective h))
visit-keeps view f keeps (v ∷ vs) s {s'} h =
    let (r, e, g) = >>=-eq-ok (f v s) _ h in
    elim (Bool-cases r.0) [
      | inl stops ↦ ap view (sym (ok-injective (rw stops at g))) ∙ keeps v s r e
      | inr goes ↦ visit-keeps view f keeps vs r.1 (rw goes at g) ∙ keeps v s r e
    ]
