-- ===== src/Wiring/Wired.antt =====
-- What a run of calls of `NewChainApp` leaves, where the calls are ready: nothing that was assigned
-- changes, and each place holds what its call made of the values that its arguments have at the end.
use vector_chain.Prelude.{
  ==_iff, ◌≡◌, refl, sym, ap, ◌∙◌, String, true, false, not, ◌&&◌, some, List, [], ◌∷◌, subst,
  Outcome, ok, fail, error, panic, fatal, All,
}
use vector_chain.Prelude.Actions.{Action, ◌>>=◌, bind-ok}
use vector_chain.Wiring.Places.{Place, place_number, same_place}
use vector_chain.Wiring.Calls.{
  Argument, Value, Call, assign, perform, perform_logged, find, eval_all, Sdk, Built, prefixed,
  arguments, guarded, forgiven, make_place, set_place, run_call, run_calls,
}
use vector_chain.Wiring.Ready.{
  known, are_ready, ready, after, and_left, and_right, not-true, assigned, AreGiven,
  eval_all-AreGiven,
}
use vector_chain.Wiring.Extends.{
  Extends, Extends-refl, Extends-trans, Extends-cons, eval_all-Extends,
}

prefixed-eq-ok :
    {A : Type 0} (prefix : String) (r : Outcome A) {a : A} → prefixed prefix r ≡ ok a → r ≡ ok a
prefixed-eq-ok prefix (ok a) e = e
prefixed-eq-ok prefix (fail (error m)) e = cc
prefixed-eq-ok prefix (fail (panic m)) e = e
prefixed-eq-ok prefix (fail (fatal m)) e = e

pub ready-cons :
    (c : Call) (cs : List Call) (avail : List Place)
    → ready avail (c ∷ cs) ≡ true
    → (ready avail (c ∷ []) ≡ true) × (ready (after avail (c ∷ [])) cs ≡ true)
unfolding ready after
ready-cons (assign p as' _) cs avail h =
    let set = and_left (are_ready avail as') (not (known p avail) && ready (p ∷ avail) cs) h in
    let others = and_right (are_ready avail as') (not (known p avail) && ready (p ∷ avail) cs) h in
    (
      rw (set, and_left (not (known p avail)) (ready (p ∷ avail) cs) others) refl,
      and_right (not (known p avail)) (ready (p ∷ avail) cs) others,
    )
ready-cons (perform e as' _) cs avail h = (
  rw (and_left (are_ready avail as') (ready avail cs) h) refl,
  and_right (are_ready avail as') (ready avail cs) h,
)
ready-cons (perform_logged e as') cs avail h = (
  rw (and_left (are_ready avail as') (ready avail cs) h) refl,
  and_right (are_ready avail as') (ready avail cs) h,
)

after-cons :
    (c : Call) (cs : List Call) (avail : List Place)
    → after avail (c ∷ cs) ≡ after (after avail (c ∷ [])) cs
unfolding after
after-cons (assign p as' _) cs avail = refl
after-cons (perform e as' _) cs avail = refl
after-cons (perform_logged e as') cs avail = refl

same_place_refl : (p : Place) → same_place p p ≡ true
same_place_refl p = (==_iff (place_number p) (place_number p)).1 refl

find_new : {K : Type 0} (p : Place) (k : K) (ps : List (Place × K)) → find p ((p, k) ∷ ps) ≡ some k
unfolding find
find_new p k ps = rw (same_place_refl p) refl

module _ {K S : Type 0} (sdk : Sdk K S) where
  -- The call was made on the values that its arguments have in `ps`, each of them given, and its place
  -- holds what it returned.
  unfoldable pub Wired : List (Place × K) → Call → Type 0
  Wired ps (assign p as' prefix) =
      (k : K) × (vs : List (Value K)) × (s : S) × (s' : S) × (find p ps ≡ some k)
      × (eval_all sdk.part_of ps as' ≡ ok vs)
      × AreGiven vs
      × (sdk.make p vs s ≡ (ok k, s'))
  Wired ps (perform e as' prefix) =
      (vs : List (Value K)) × (s : S) × (s' : S) × (eval_all sdk.part_of ps as' ≡ ok vs)
      × AreGiven vs
      × (sdk.act e vs s ≡ (ok tt, s'))
  Wired ps (perform_logged e as') =
      (vs : List (Value K)) × (eval_all sdk.part_of ps as' ≡ ok vs) × AreGiven vs

  -- Arguments that are read are passed on.
  pub arguments-passed :
      {A : Type 0} (as' : List Argument) (next : List (Value K) → Action (Built K S) A)
      (b : Built K S) {vs : List (Value K)}
      → eval_all sdk.part_of b.places as' ≡ ok vs
      → (arguments sdk as' >>= next) b ≡ next vs b
  unfolding arguments
  arguments-passed {A} as' next b e =
      ap {B = Outcome A × Built K S} (λ r. elim r [ ok vs ↦ next vs b | fail x ↦ (fail x, b) ]) e

  guarded-ok :
      {A : Type 0} (prefix : String) (m : Action S A) (b : Built K S) {a : A} {b₁ : Built K S}
      → guarded sdk prefix m b ≡ (ok a, b₁)
      → (s' : S) × (m b.rest ≡ (ok a, s')) × (b₁.places ≡ b.places)
  guarded-ok prefix m b e = (
    (m b.rest).1,
    (λ i. (prefixed-eq-ok prefix (m b.rest).0 (ap (λ p. p.0) e) i, (m b.rest).1)),
    sym (ap (λ p. (p.1).places) e),
  )

  unfoldable pub Step : Call → List (Place × K) → List (Place × K) → Type 0
  Step c ps qs =
      Extends ps qs
      × ((rs : List (Place × K)) → Extends qs rs → Wired rs c)
      × (assigned qs ≡ after (assigned ps) (c ∷ []))

  pub run_call-Step :
      (c : Call) (b b' : Built K S)
      → ready (assigned b.places) (c ∷ []) ≡ true
      → run_call sdk c b ≡ (ok tt, b')
      → Step c b.places b'.places
  unfolding run_call Step Wired Extends ready after
  run_call-Step (assign p as' prefix) b b' h e =
      let set : are_ready (assigned b.places) as' ≡ true =
        and_left (are_ready (assigned b.places) as') (not (known p (assigned b.places)) && true)
          h in
      let fresh : known p (assigned b.places) ≡ false = not-true (known p (assigned b.places)) (
        and_left (not (known p (assigned b.places))) true (
          and_right (are_ready (assigned b.places) as') (not (known p (assigned b.places)) && true)
            h)) in
      let (vs, read, sets) = eval_all-AreGiven sdk.part_of b.places as' set in
      let (k, b₁, made, placed) =
        bind-ok (guarded sdk prefix (sdk.make p vs)) (set_place sdk p) b
          (sym (arguments-passed as' (make_place sdk p prefix) b read) ∙ e) in
      let (s', called, kept) = guarded-ok prefix (sdk.make p vs) b made in
      let places : b'.places ≡ (p, k) ∷ b.places =
        sym (ap (λ r. (r.1).places) placed) ∙ ap (λ ps. (p, k) ∷ ps) kept in
      subst (Step (assign p as' prefix) b.places) (sym places) (
        Extends-cons p k b.places fresh,
        (λ rs more. (
          k,
          vs,
          b.rest,
          s',
          more p k (find_new p k b.places),
          eval_all-Extends sdk.part_of b.places rs
                (Extends-trans b.places ((p, k) ∷ b.places) rs (Extends-cons p k b.places fresh)
                  more)
                as' set
              ∙ read,
          sets,
          called,
        )),
        refl,
      )
  run_call-Step (perform f as' prefix) b b' h e =
      let set : are_ready (assigned b.places) as' ≡ true =
        and_left (are_ready (assigned b.places) as') true h in
      let (vs, read, sets) = eval_all-AreGiven sdk.part_of b.places as' set in
      let (s', called, kept) =
        guarded-ok prefix (sdk.act f vs) b
          (sym (arguments-passed as' (λ vs. guarded sdk prefix (sdk.act f vs)) b read) ∙ e) in
      subst (Step (perform f as' prefix) b.places) (sym kept) (
        Extends-refl b.places,
        (λ rs more. (
          vs,
          b.rest,
          s',
          eval_all-Extends sdk.part_of b.places rs more as' set ∙ read,
          sets,
          called,
        )),
        refl,
      )
  run_call-Step (perform_logged f as') b b' h e =
      let set : are_ready (assigned b.places) as' ≡ true =
        and_left (are_ready (assigned b.places) as') true h in
      let (vs, read, sets) = eval_all-AreGiven sdk.part_of b.places as' set in
      let kept : b'.places ≡ b.places = sym (
        ap (λ r. (r.1).places)
          (sym (arguments-passed as' (λ vs. forgiven sdk (sdk.act f vs)) b read) ∙ e)) in
      subst (Step (perform_logged f as') b.places) (sym kept) (
        Extends-refl b.places,
        (λ rs more. (vs, eval_all-Extends sdk.part_of b.places rs more as' set ∙ read, sets)),
        refl,
      )

  -- Where the calls are ready and the run returns, nothing that was assigned has changed, and every
  -- call is wired.
  unfoldable pub AllWired : List (Place × K) → List Call → List (Place × K) → Type 0
  AllWired ps cs qs =
      Extends ps qs
      × ((rs : List (Place × K)) → Extends qs rs → All (Wired rs) cs)
      × (assigned qs ≡ after (assigned ps) cs)

  pub run_calls-AllWired :
      (cs : List Call) (b b' : Built K S)
      → ready (assigned b.places) cs ≡ true
      → run_calls sdk cs b ≡ (ok tt, b')
      → AllWired b.places cs b'.places
  unfolding run_calls AllWired Step after
  run_calls-AllWired [] b b' h e =
      subst (AllWired b.places []) (ap (λ r. (r.1).places) e)
        (Extends-refl b.places, (λ rs more. tt), refl)
  run_calls-AllWired (c ∷ cs) b b' h e =
      let (u, b₁, first, later) = bind-ok (run_call sdk c) (λ _. run_calls sdk cs) b e in
      let (one, others) = ready-cons c cs (assigned b.places) h in
      let (more, wired, names) = run_call-Step c b b₁ one first in
      let (more', wireds, names') =
        run_calls-AllWired cs b₁ b' (subst (λ avail. ready avail cs ≡ true) (sym names) others)
          later in
      (
        Extends-trans b.places b₁.places b'.places more more',
        (λ rs later'.
            (wired rs (Extends-trans b₁.places b'.places rs more' later'), wireds rs later')),
        names' ∙ ap (λ avail. after avail cs) names ∙ sym (after-cons c cs (assigned b.places)),
      )
