-- ===== src/Wiring/Extends.antt =====
-- More places assigned: what was assigned stays as it is, and what could be read is read again.
use vector_chain.Prelude.{
  if◌then◌else◌, ◌==◌, ==_iff, ◌≡◌, refl, sym, ◌∙◌, true, false, none, some, List, [], ◌∷◌, inl,
  inr, Bool-cases,
}
use vector_chain.Wiring.Places.{Place, place_number, same_place, kv_keys, params}
use vector_chain.Wiring.Stores.{kv_store_keys, has_key, init_params_keeper, has_subspace}
use vector_chain.Wiring.Calls.{
  Part, Argument, place, part, kv_store, store_service, subspace, names, stores, outside,
  nil_literal, find, eval, eval_all,
}
use vector_chain.Wiring.Ready.{
  known, is_ready, are_ready, and_left, and_right, assigned, find-known, find-unknown,
}

none_is_some : {A : Type 0} {a : A} → none ≡ some a → ⊥
none_is_some e = cc

module _ {K : Type 0} where
  -- What is assigned stays as it is.
  unfoldable pub Extends : List (Place × K) → List (Place × K) → Type 0
  Extends ps ps' = (p : Place) (k : K) → find p ps ≡ some k → find p ps' ≡ some k

  pub Extends-refl : (ps : List (Place × K)) → Extends ps ps
  unfolding Extends
  Extends-refl ps p k e = e

  pub Extends-trans : (ps qs rs : List (Place × K)) → Extends ps qs → Extends qs rs → Extends ps rs
  unfolding Extends
  Extends-trans ps qs rs h g p k e = g p k (h p k e)

  find-same :
      (p q : Place) (ps : List (Place × K))
      → place_number q ≡ place_number p
      → find q ps ≡ find p ps
  unfolding find
  find-same p q [] e = refl
  find-same p q ((r, k) ∷ ps) e =
      λ i. if e i == place_number r then some k else find-same p q ps e i

  pub Extends-cons :
      (p : Place) (k : K) (ps : List (Place × K))
      → known p (assigned ps) ≡ false
      → Extends ps ((p, k) ∷ ps)
  unfolding Extends find
  Extends-cons p k ps fresh q j e = elim (Bool-cases (same_place q p)) [
    | inl same ↦
        let number : place_number q ≡ place_number p = (==_iff _ _).0 same in
        absurd (none_is_some (sym (find-same p q ps number ∙ find-unknown p ps fresh) ∙ e))
    | inr other ↦ rw other e
  ]

  module _ (part_of : Part → K → K) (ps qs : List (Place × K)) (more : Extends ps qs) where
    -- A value that is set is read again where more is assigned.
    eval-Extends :
        (a : Argument) → is_ready (assigned ps) a ≡ true → eval part_of qs a ≡ eval part_of ps a
    unfolding is_ready eval Extends
    eval-Extends (place p) h = let (k, e) = find-known p ps h in rw (e, more p k e) refl
    eval-Extends (part p x) h = let (k, e) = find-known p ps h in rw (e, more p k e) refl
    eval-Extends (kv_store s) h =
        let (k, e) =
          find-known kv_keys ps
            (and_right (has_key s kv_store_keys) (known kv_keys (assigned ps)) h) in
        rw (e, more kv_keys k e) refl
    eval-Extends (store_service s) h =
        let (k, e) =
          find-known kv_keys ps
            (and_right (has_key s kv_store_keys) (known kv_keys (assigned ps)) h) in
        rw (e, more kv_keys k e) refl
    eval-Extends (subspace n) h =
        let (k, e) =
          find-known params ps
            (and_right (has_subspace n init_params_keeper) (known params (assigned ps)) h) in
        rw (e, more params k e) refl
    eval-Extends (names ms) h = refl
    eval-Extends (stores ss) h = refl
    eval-Extends (outside e) h = refl
    eval-Extends (nil_literal e) h = refl

    pub eval_all-Extends :
        (as' : List Argument)
        → are_ready (assigned ps) as' ≡ true
        → eval_all part_of qs as' ≡ eval_all part_of ps as'
    unfolding are_ready eval_all
    eval_all-Extends [] h = refl
    eval_all-Extends (a ∷ as') h =
        let first : is_ready (assigned ps) a ≡ true =
          and_left (is_ready (assigned ps) a) (are_ready (assigned ps) as') h in
        let others : are_ready (assigned ps) as' ≡ true =
          and_right (is_ready (assigned ps) a) (are_ready (assigned ps) as') h in
        rw (eval-Extends a first, eval_all-Extends as' others) refl
