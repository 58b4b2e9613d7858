-- ===== src/Wiring/Reached.antt =====
-- How far a run of `NewChainApp` of app/app.go has come: the calls that are made and wired. The steps
-- between the calls assign nothing.
use vector_chain.Prelude.{
  ◌≡◌, refl, sym, ap, ◌∙◌, Bool, true, false, List, [], ◌∷◌, ◌++◌, if◌then◌else◌, subst, Outcome,
  ok, fail, All, All-append, Bool-cases, inl, inr,
}
use vector_chain.Prelude.Actions.{Action, ◌>>=◌, lift}
use mathlib.Core.List.{append-nil}
use vector_chain.Upgrades.{App}
use vector_chain.Wiring.Places.{Place}
use vector_chain.Wiring.Calls.{Call, assign, perform, perform_logged, Value, arguments}
use vector_chain.Wiring.Ready.{ready, after, assigned}
use vector_chain.Wiring.Extends.{Extends, Extends-trans}
use vector_chain.Wiring.Wired.{Wired, AllWired, run_calls-AllWired}
use vector_chain.Wiring.Program.Closing.{service_calls, snapshot_calls, load_calls}
use vector_chain.Wiring.ChainCalls.{opening_calls, snapshots_ready}
use vector_chain.Wiring.Construct.{
  construction_calls, Host, Process, run, on_built, app_keepers, registered, register_with,
  ante_options, register_upgrades, set_ante, extend_snapshots, load_app,
}

pub after-append :
    (avail : List Place) (cs ds : List Call) → after avail (cs ++ ds) ≡ after (after avail cs) ds
unfolding after
after-append avail [] ds = refl
after-append avail (assign p as' _ ∷ cs) ds = after-append (p ∷ avail) cs ds
after-append avail (perform e as' _ ∷ cs) ds = after-append avail cs ds
after-append avail (perform_logged e as' ∷ cs) ds = after-append avail cs ds

module _ {K S U : Type 0} (host : Host K S U) where
  -- The calls have been made, in order, and are wired, whatever is assigned later.
  unfoldable pub Reached : List Call → Process K S U → Type 0
  Reached cs p =
      (assigned p.built.places ≡ after [] cs)
      × ((rs : List (Place × K)) → Extends p.built.places rs → All (Wired host.sdk rs) cs)

  pub run-Reached :
      (cs ds : List Call) (p p' : Process K S U)
      → Reached cs p
      → ready (after [] cs) ds ≡ true
      → run host ds p ≡ (ok tt, p')
      → Reached (cs ++ ds) p'
  unfolding Reached AllWired
  run-Reached cs ds p p' (names, wired) h e =
      let (more, wired', names') =
        run_calls-AllWired host.sdk ds p.built p'.built
          (subst (λ avail. ready avail ds ≡ true) (sym names) h)
          (λ i. ((e i).0, ((e i).1).built)) in
      (
        names' ∙ ap (λ avail. after avail ds) names ∙ sym (after-append [] cs ds),
        (λ rs later.
            All-append (Wired host.sdk rs) cs ds (wired' rs later)
              (wired rs (Extends-trans p.built.places p'.built.places rs more later))),
      )

  pub kept-Reached :
      (cs : List Call) (p p' : Process K S U)
      → p.built.places ≡ p'.built.places
      → Reached cs p
      → Reached cs p'
  unfolding Reached
  kept-Reached cs p p' e reached =
      subst
        (λ ps.
          (assigned ps ≡ after [] cs)
          × ((rs : List (Place × K)) → Extends ps rs → All (Wired host.sdk rs) cs))
        e reached

  -- An action that assigns nothing.
  unfoldable pub Keeps : {A : Type 0} → Action (Process K S U) A → Type 0
  Keeps m = (p : Process K S U) → p.built.places ≡ ((m p).1).built.places

  pub Keeps-bind :
      {A B : Type 0} (m : Action (Process K S U) A) (f : A → Action (Process K S U) B)
      → Keeps m
      → ((a : A) → Keeps (f a))
      → Keeps (m >>= f)
  unfolding Keeps
  Keeps-bind {A} {B} m f first later p = go (m p) (first p)
    where
      go :
          (r : Outcome A × Process K S U)
          → p.built.places ≡ (r.1).built.places
          → p.built.places ≡ (
              let next : Outcome B × Process K S U = elim r.0 [
                | ok a ↦ f a r.1
                | fail x ↦ (fail x, r.1)
              ] in
              (next.1).built.places)
      go (ok a, q) e = e ∙ later a q
      go (fail x, q) e = e

  pub Keeps-ok :
      {A : Type 0} (m : Action (Process K S U) A) {p p' : Process K S U} {a : A}
      → Keeps m
      → m p ≡ (ok a, p')
      → p.built.places ≡ p'.built.places
  unfolding Keeps
  Keeps-ok m {p = p} keeps e = keeps p ∙ ap (λ r. ((r.1).built).places) e

  pub registered-Keeps :
      (r : Outcome (App S (Value K) (List (Value K)) U)) → Keeps (registered host r)
  unfolding Keeps
  registered-Keeps (ok app) p = refl
  registered-Keeps (fail x) p = refl

  pub register_upgrades-Keeps : Keeps (register_upgrades host)
  unfolding Keeps register_upgrades arguments
  register_upgrades-Keeps =
      Keeps-bind (on_built host (arguments host.sdk (app_keepers host))) (register_with host)
        (λ p. refl) (λ keepers p. registered-Keeps _ p)

  pub set_ante-Keeps : Keeps (set_ante host)
  unfolding Keeps set_ante
  set_ante-Keeps =
      Keeps-bind (λ p. (ante_options host p.built, p)) _ (λ p. refl)
        (λ options. Keeps-bind (lift _) _ (λ p. refl) (λ handler p. refl))

  pub extend_snapshots-Reached :
      (p p' : Process K S U)
      → Reached (construction_calls ++ service_calls) p
      → extend_snapshots host p ≡ (ok tt, p')
      → (snapshots : Bool) × Reached (opening_calls snapshots) p'
  unfolding extend_snapshots opening_calls
  extend_snapshots-Reached p p' reached e =
      elim (Bool-cases (host.has_snapshot_manager p.built.rest)) [
        | inl there ↦ (
          true,
          run-Reached (construction_calls ++ service_calls) snapshot_calls p p' reached
              snapshots_ready (rw there at e),
        )
        | inr missing ↦ (
          false,
          rw append-nil (
              kept-Reached (construction_calls ++ service_calls) p p'
                (ap (λ r. ((r.1).built).places) (rw missing at e)) reached),
        )
      ]

  pub load_app-Reached :
      (load_latest : Bool) (cs : List Call) (p p' : Process K S U)
      → Reached cs p
      → ready (after [] cs) load_calls ≡ true
      → load_app host load_latest p ≡ (ok tt, p')
      → Reached (cs ++ (if load_latest then load_calls else [])) p'
  unfolding load_app
  load_app-Reached true cs p p' reached h e = run-Reached cs load_calls p p' reached h e
  load_app-Reached false cs p p' reached h e =
      rw append-nil (kept-Reached cs p p' (ap (λ r. ((r.1).built).places) e) reached)
