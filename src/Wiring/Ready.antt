-- ===== src/Wiring/Ready.antt =====
-- A check of the calls of `NewChainApp` before they run: each argument is assigned by a call that
-- stands before it, each store is mounted, each subspace registered, and nothing is assigned twice.
use vector_chain.Prelude.{
  ◌≡◌, refl, sym, Bool, true, false, not, ◌&&◌, ◌||◌, none, some, List, [], ◌∷◌, map, inl, inr,
  Bool-cases, false_is_true, ok,
}
use vector_chain.Wiring.Places.{Place, same_place, kv_keys, params}
use vector_chain.Wiring.Stores.{kv_store_keys, has_key, init_params_keeper, has_subspace}
use vector_chain.Wiring.Calls.{
  Part, Argument, place, part, kv_store, store_service, subspace, names, stores, outside,
  nil_literal, Value, nil, object, constant, Call, assign, perform, perform_logged, find, eval,
  eval_all,
}

unfoldable pub known : Place → List Place → Bool
known p [] = false
known p (q ∷ ps) = same_place p q || known p ps

unfoldable pub is_ready : List Place → Argument → Bool
unfolding has_key kv_store_keys has_subspace init_params_keeper
is_ready avail (place p) = known p avail
is_ready avail (part p x) = known p avail
is_ready avail (kv_store s) = has_key s kv_store_keys && known kv_keys avail
is_ready avail (store_service s) = has_key s kv_store_keys && known kv_keys avail
is_ready avail (subspace n) = has_subspace n init_params_keeper && known params avail
is_ready avail (names ms) = true
is_ready avail (stores ss) = true
is_ready avail (outside e) = true
is_ready avail (nil_literal e) = true

unfoldable pub are_ready : List Place → List Argument → Bool
unfolding is_ready
are_ready avail [] = true
are_ready avail (a ∷ as') = is_ready avail a && are_ready avail as'

unfoldable pub ready : List Place → List Call → Bool
unfolding known are_ready
ready avail [] = true
ready avail (assign p as' _ ∷ cs) =
    are_ready avail as' && (not (known p avail) && ready (p ∷ avail) cs)
ready avail (perform e as' _ ∷ cs) = are_ready avail as' && ready avail cs
ready avail (perform_logged e as' ∷ cs) = are_ready avail as' && ready avail cs

-- The places that are assigned after the calls.
unfoldable pub after : List Place → List Call → List Place
after avail [] = avail
after avail (assign p as' _ ∷ cs) = after (p ∷ avail) cs
after avail (perform e as' _ ∷ cs) = after avail cs
after avail (perform_logged e as' ∷ cs) = after avail cs

pub and_left : (a b : Bool) → (a && b) ≡ true → a ≡ true
and_left true b h = refl
and_left false b h = h

pub and_right : (a b : Bool) → (a && b) ≡ true → b ≡ true
and_right true b h = h
and_right false b h = absurd (false_is_true h)

pub not-true : (a : Bool) → not a ≡ true → a ≡ false
not-true true h = absurd (false_is_true h)
not-true false h = refl

module _ {K : Type 0} where
  abbrev pub assigned : List (Place × K) → List Place
  assigned ps = map (λ p. p.0) ps

  pub find-known :
      (p : Place) (ps : List (Place × K))
      → known p (assigned ps) ≡ true
      → (k : K) × (find p ps ≡ some k)
  unfolding known find
  find-known p [] h = absurd (false_is_true h)
  find-known p ((q, k) ∷ ps) h = elim (Bool-cases (same_place p q)) [
    | inl same ↦ (k, rw same refl)
    | inr other ↦ let (k', e) = find-known p ps (rw other at h) in (k', rw other e)
  ]

  pub find-unknown :
      (p : Place) (ps : List (Place × K)) → known p (assigned ps) ≡ false → find p ps ≡ none
  unfolding known find
  find-unknown p [] h = refl
  find-unknown p ((q, k) ∷ ps) h = elim (Bool-cases (same_place p q)) [
    | inl same ↦ absurd (false_is_true (sym (rw same at h)))
    | inr other ↦ rw other (find-unknown p ps (rw other at h))
  ]

  -- The value is not that of a variable, a field, a store or a subspace that nothing was assigned to.
  abbrev pub IsGiven : Value K → Type 0
  IsGiven nil = ⊥
  IsGiven (object k) = Unit
  IsGiven (constant a) = Unit

  abbrev pub AreGiven : List (Value K) → Type 0
  AreGiven [] = Unit
  AreGiven (v ∷ vs) = IsGiven v × AreGiven vs

  module _ (part_of : Part → K → K) (ps : List (Place × K)) where
    -- An argument that is ready is read, and is given.
    pub eval-IsGiven :
        (a : Argument)
        → is_ready (assigned ps) a ≡ true
        → (v : Value K) × (eval part_of ps a ≡ ok v) × IsGiven v
    unfolding is_ready eval
    eval-IsGiven (place p) h = let (k, e) = find-known p ps h in (object k, rw e refl, tt)
    eval-IsGiven (part p x) h =
        let (k, e) = find-known p ps h in (object (part_of x k), rw e refl, tt)
    eval-IsGiven (kv_store s) h =
        let mounted = and_left (has_key s kv_store_keys) (known kv_keys (assigned ps)) h in
        let (k, e) =
          find-known kv_keys ps
            (and_right (has_key s kv_store_keys) (known kv_keys (assigned ps)) h) in
        (constant (kv_store s), rw (e, mounted) refl, tt)
    eval-IsGiven (store_service s) h =
        let mounted = and_left (has_key s kv_store_keys) (known kv_keys (assigned ps)) h in
        let (k, e) =
          find-known kv_keys ps
            (and_right (has_key s kv_store_keys) (known kv_keys (assigned ps)) h) in
        (constant (store_service s), rw (e, mounted) refl, tt)
    eval-IsGiven (subspace n) h =
        let listed = and_left (has_subspace n init_params_keeper) (known params (assigned ps)) h in
        let (k, e) =
          find-known params ps
            (and_right (has_subspace n init_params_keeper) (known params (assigned ps)) h) in
        (constant (subspace n), rw (e, listed) refl, tt)
    eval-IsGiven (names ms) h = (constant (names ms), refl, tt)
    eval-IsGiven (stores ss) h = (constant (stores ss), refl, tt)
    eval-IsGiven (outside e) h = (constant (outside e), refl, tt)
    eval-IsGiven (nil_literal e) h = (constant (nil_literal e), refl, tt)

    pub eval_all-AreGiven :
        (as' : List Argument)
        → are_ready (assigned ps) as' ≡ true
        → (vs : List (Value K)) × (eval_all part_of ps as' ≡ ok vs) × AreGiven vs
    unfolding are_ready eval_all
    eval_all-AreGiven [] h = ([], refl, tt)
    eval_all-AreGiven (a ∷ as') h =
        let (v, e, s) =
          eval-IsGiven a (and_left (is_ready (assigned ps) a) (are_ready (assigned ps) as') h) in
        let (vs, es, ss) =
          eval_all-AreGiven as'
            (and_right (is_ready (assigned ps) a) (are_ready (assigned ps) as') h) in
        (v ∷ vs, rw (e, es) refl, (s, ss))
