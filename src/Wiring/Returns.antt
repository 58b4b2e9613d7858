-- ===== src/Wiring/Returns.antt =====
-- A run of calls of `NewChainApp` that are ready and lawful comes to its end, where the SDK fails
-- otherwise only.
use vector_chain.Prelude.{
  ◌≡◌, refl, sym, ap, ◌∙◌, String, true, not, ◌&&◌, List, [], ◌∷◌, subst, ok,
}
use vector_chain.Prelude.Actions.{Action, bind-passes}
use vector_chain.Wiring.Places.{Place}
use vector_chain.Wiring.Calls.{
  Value, Effect, Call, assign, perform, perform_logged, Sdk, Built, guarded, forgiven, make_place,
  set_place, run_call, run_calls,
}
use vector_chain.Wiring.Ready.{
  known, are_ready, ready, and_left, assigned, AreGiven, eval_all-AreGiven,
}
use vector_chain.Wiring.Seals.{
  place_barrier, barrier, sealed_by, clear, lawful, seals_after, clear_first, whole_first,
}
use vector_chain.Wiring.Orders.{forgets_none, mentioned, all_named, all_named-eval_all}
use vector_chain.Wiring.Wired.{arguments-passed, ready-cons, Step, run_call-Step}

-- What is assumed of the calls: one returns whose arguments are given and whose barrier does not
-- stand, where `seals` is what stands in a state; an order of the modules has to be whole, too. Of all
-- the calls the barriers alone change what stands.
pub record Succeeds {K S : Type 0} (sdk : Sdk K S) : Type 0 where
  pub seals : S → List Effect
  pub makes :
      (p : Place) (vs : List (Value K)) (s : S)
      → AreGiven vs
      → clear (seals s) (place_barrier p) ≡ true
      → (k : K) × (s' : S) × (sdk.make p vs s ≡ (ok k, s')) × (seals s' ≡ seals s)
  pub acts :
      (e : Effect) (vs : List (Value K)) (s : S)
      → AreGiven vs
      → forgets_none e (all_named vs) ≡ true
      → clear (seals s) (barrier e) ≡ true
      → (s' : S) × (sdk.act e vs s ≡ (ok tt, s')) × (seals s' ≡ sealed_by e (seals s))

module _ {K S : Type 0} (sdk : Sdk K S) where
  guarded-ok :
      {A : Type 0} (prefix : String) (m : Action S A) (b : Built K S) {a : A} {s' : S}
      → m b.rest ≡ (ok a, s')
      → guarded sdk prefix m b ≡ (ok a, record b { rest = s' })
  guarded-ok prefix m b e = rw e refl

  make_place-ok :
      (p : Place) (prefix : String) (vs : List (Value K)) (b : Built K S) {k : K} {s' : S}
      → sdk.make p vs b.rest ≡ (ok k, s')
      → make_place sdk p prefix vs b ≡ (ok tt, record { places = (p, k) ∷ b.places; rest = s' })
  make_place-ok p prefix vs b e =
      bind-passes (guarded sdk prefix (sdk.make p vs)) (set_place sdk p) b
        (guarded-ok prefix (sdk.make p vs) b e)

  forgiven-ok :
      (m : Action S (Unit {0})) (b : Built K S) {s' : S}
      → m b.rest ≡ (ok tt, s')
      → forgiven sdk m b ≡ (ok tt, record b { rest = s' })
  forgiven-ok m b e = rw e refl

module _ {K S : Type 0} (sdk : Sdk K S) (succeeds : Succeeds sdk) where
  run_call-Returns :
      (c : Call) (cs : List Call) (b : Built K S)
      → ready (assigned b.places) (c ∷ []) ≡ true
      → lawful (succeeds.seals b.rest) (c ∷ cs) ≡ true
      → (b' : Built K S) × (run_call sdk c b ≡ (ok tt, b'))
        × (lawful (succeeds.seals b'.rest) cs ≡ true)
        × (seals_after (succeeds.seals b'.rest) cs ≡ seals_after (succeeds.seals b.rest) (c ∷ cs))
  unfolding run_call ready lawful seals_after
  run_call-Returns (assign p as' prefix) cs b h u =
      let set : are_ready (assigned b.places) as' ≡ true =
        and_left (are_ready (assigned b.places) as') (not (known p (assigned b.places)) && true)
          h in
      let (free, others) =
        clear_first (succeeds.seals b.rest) (succeeds.seals b.rest) (place_barrier p) cs u in
      let (vs, read, sets) = eval_all-AreGiven sdk.part_of b.places as' set in
      let (k, s', made, same) = succeeds.makes p vs b.rest sets free in
      (
        record { places = (p, k) ∷ b.places; rest = s' },
        arguments-passed sdk as' (make_place sdk p prefix) b read
            ∙ make_place-ok sdk p prefix vs b made,
        subst (λ seals. lawful seals cs ≡ true) (sym same) others,
        ap (λ seals. seals_after seals cs) same,
      )
  run_call-Returns (perform f as' prefix) cs b h u =
      let set : are_ready (assigned b.places) as' ≡ true =
        and_left (are_ready (assigned b.places) as') true h in
      let (whole, free, others) = whole_first (succeeds.seals b.rest) f (mentioned as') cs u in
      let (vs, read, sets) = eval_all-AreGiven sdk.part_of b.places as' set in
      let whole' : forgets_none f (all_named vs) ≡ true =
        ap (forgets_none f) (all_named-eval_all sdk.part_of b.places as' vs read) ∙ whole in
      let (s', done, same) = succeeds.acts f vs b.rest sets whole' free in
      (
        record b { rest = s' },
        arguments-passed sdk as' (λ vs. guarded sdk prefix (sdk.act f vs)) b read
            ∙ guarded-ok sdk prefix (sdk.act f vs) b done,
        subst (λ seals. lawful seals cs ≡ true) (sym same) others,
        ap (λ seals. seals_after seals cs) same,
      )
  run_call-Returns (perform_logged f as') cs b h u =
      let set : are_ready (assigned b.places) as' ≡ true =
        and_left (are_ready (assigned b.places) as') true h in
      let (whole, free, others) = whole_first (succeeds.seals b.rest) f (mentioned as') cs u in
      let (vs, read, sets) = eval_all-AreGiven sdk.part_of b.places as' set in
      let whole' : forgets_none f (all_named vs) ≡ true =
        ap (forgets_none f) (all_named-eval_all sdk.part_of b.places as' vs read) ∙ whole in
      let (s', done, same) = succeeds.acts f vs b.rest sets whole' free in
      (
        record b { rest = s' },
        arguments-passed sdk as' (λ vs. forgiven sdk (sdk.act f vs)) b read
            ∙ forgiven-ok sdk (sdk.act f vs) b done,
        subst (λ seals. lawful seals cs ≡ true) (sym same) others,
        ap (λ seals. seals_after seals cs) same,
      )

  pub run_calls-Returns :
      (cs : List Call) (b : Built K S)
      → ready (assigned b.places) cs ≡ true
      → lawful (succeeds.seals b.rest) cs ≡ true
      → (b' : Built K S) × (run_calls sdk cs b ≡ (ok tt, b'))
        × (succeeds.seals b'.rest ≡ seals_after (succeeds.seals b.rest) cs)
  unfolding run_calls Step seals_after
  run_calls-Returns [] b h u = (b, refl, refl)
  run_calls-Returns (c ∷ cs) b h u =
      let (one, others) = ready-cons c cs (assigned b.places) h in
      let (b₁, first, free, seals) = run_call-Returns c cs b one u in
      let (_, _, names) = run_call-Step sdk c b b₁ one first in
      let (b', later, seals') =
        run_calls-Returns cs b₁ (subst (λ avail. ready avail cs ≡ true) (sym names) others) free in
      (b', bind-passes (run_call sdk c) (λ _. run_calls sdk cs) b first ∙ later, seals' ∙ seals)
