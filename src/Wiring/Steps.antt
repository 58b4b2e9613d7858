-- ===== src/Wiring/Steps.antt =====
-- The steps of `NewChainApp` of app/app.go return: the calls, and what stands between them.
use vector_chain.Prelude.{
  ◌≡◌, refl, sym, ap, ◌∙◌, Bool, true, false, some, List, [], ◌∷◌, ◌++◌, subst, ok, Bool-cases, inl,
  inr, ok-injective,
}
use vector_chain.Prelude.Actions.{Action, ◌>>=◌, bind-passes}
use vector_chain.Ante.Build.{missing, new_ante_handler_builds}
use vector_chain.Upgrades.{Plan}
use vector_chain.Upgrades.Register.{register-Returns}
use vector_chain.Wiring.Places.{Place}
use vector_chain.Wiring.Stores.{Store}
use vector_chain.Wiring.Calls.{
  Call, Value, Argument, Part, eval, Effect, object, arguments, prefixed, place, part,
  store_service,
}
use vector_chain.Wiring.Ready.{
  ready, after, assigned, are_ready, eval_all-AreGiven, is_ready, eval-IsGiven, IsGiven,
}
use vector_chain.Wiring.Seals.{barrier, clear, lawful, seals_after}
use vector_chain.Wiring.Returns.{Succeeds, run_calls-Returns}
use vector_chain.Wiring.ChainCalls.{snapshots_ready}
use vector_chain.Wiring.Reached.{Reached}
use vector_chain.Wiring.Construct.{
  construction_calls, Host, Process, run, on_built, app_keepers, register_with, registered,
  register_upgrades, ante_options, options_of, make_handler, set_handler, set_ante,
  extend_snapshots, load_app, place_value,
}
use vector_chain.Wiring.Program.Closing.{service_calls, snapshot_calls, load_calls}
use vector_chain.Wiring.ChainLawful.{
  construction_seals, ante_whole, ante_lawful, snapshot_lawful, snapshot_seals, load_lawful,
}

-- What is assumed of the code outside: its calls return as `Succeeds` says, there is a gas register in
-- every wasm keeper, and a plan, which may be empty, is read from the disk.
pub record Works {K S U : Type 0} (host : Host K S U) : Type 0 where
  pub succeeds : Succeeds host.sdk
  pub register : (v : Value K) → (g : Value K) × (host.get_gas_register (some v) ≡ ok g)
  pub plan : (k : U) → (plan : Plan) × (host.upgrade_keeper.read_upgrade_info_from_disk k ≡ ok plan)

module _ {K S U : Type 0} (host : Host K S U) (works : Works host) where
  -- What stands in a process.
  abbrev pub seals_of : Process K S U → List Effect
  seals_of p = works.succeeds.seals p.built.rest

  unfoldable pub Returns : Action (Process K S U) (Unit {0}) → Process K S U → List Effect → Type 0
  Returns m p seals = (p' : Process K S U) × (m p ≡ (ok tt, p')) × (seals_of p' ≡ seals)

  pub run-Returns :
      (cs ds : List Call) (seals seals' : List Effect) (p : Process K S U)
      → Reached host cs p
      → seals_of p ≡ seals
      → ready (after [] cs) ds ≡ true
      → lawful seals ds ≡ true
      → seals_after seals ds ≡ seals'
      → Returns (run host ds) p seals'
  unfolding Returns Reached
  run-Returns cs ds seals seals' p reached at h u stand =
      let (b, e, stand') =
        run_calls-Returns host.sdk works.succeeds ds p.built
          (subst (λ avail. ready avail ds ≡ true) (sym reached.0) h)
          (subst (λ ss. lawful ss ds ≡ true) (sym at) u) in
      (
        record p { built = b },
        (λ i. ((e i).0, record p { built = (e i).1 })),
        stand' ∙ ap (λ ss. seals_after ss ds) at ∙ stand,
      )

  register_with-Returns :
      (keepers : List (Value K)) (p : Process K S U)
      → Returns (register_with host keepers) p (seals_of p)
  unfolding Returns
  register_with-Returns keepers p =
      let (app', e) =
        register-Returns host.upgrade_keeper
          (host.as_manager (place_value host Place.manager p.built))
          (place_value host Place.configurator p.built) keepers p.upgrades works.plan in
      (record p { upgrades = app' }, ap (λ r. registered host r p) e, refl)

  keepers_ready : are_ready (after [] construction_calls) (app_keepers host) ≡ true
  unfolding are_ready ready after construction_calls
  keepers_ready = refl

  pub register_upgrades-Returns :
      (p : Process K S U)
      → Reached host construction_calls p
      → Returns (register_upgrades host) p (seals_of p)
  unfolding Returns register_upgrades Reached arguments
  register_upgrades-Returns p reached =
      let (keepers, read, _) =
        eval_all-AreGiven host.sdk.part_of p.built.places (app_keepers host) (
          subst (λ avail. are_ready avail (app_keepers host) ≡ true) (sym reached.0)
            keepers_ready) in
      let (p', e, stand) = register_with-Returns keepers p in
      (
        p',
        bind-passes (on_built host (arguments host.sdk (app_keepers host))) (register_with host) p
              (λ i. (read i, p))
            ∙ e,
        stand,
      )

  -- What is assigned before the ante handler is made.
  served : List Place
  served = after [] (construction_calls ++ service_calls)

  sign_mode_ready : is_ready served (part Place.textual_tx_config Part.sign_mode_handler) ≡ true
  unfolding is_ready ready served after construction_calls service_calls
  sign_mode_ready = refl

  counter_ready : is_ready served (store_service Store.wasm) ≡ true
  unfolding is_ready ready served after construction_calls service_calls
  counter_ready = refl

  base_ready : is_ready served (place Place.base_app) ≡ true
  unfolding is_ready ready served after construction_calls service_calls
  base_ready = refl

  ante_options-Returns :
      (p : Process K S U)
      → assigned p.built.places ≡ served
      → (v : Value K) × (w : Value K) × (ante_options host p.built
          ≡ ok (options_of host p.built v w))
  unfolding ante_options
  ante_options-Returns p e =
      let at = λ (a : Argument) (h : is_ready served a ≡ true).
        eval-IsGiven host.sdk.part_of p.built.places a
          (subst (λ avail. is_ready avail a ≡ true) (sym e) h) in
      let (v, e₁, _) = at (part Place.textual_tx_config Part.sign_mode_handler) sign_mode_ready in
      let (w, e₂, _) = at (store_service Store.wasm) counter_ready in (v, w, rw (e₁, e₂) refl)

  -- Every option that is required is there.
  options_missing : (p : Process K S U) (v w : Value K) → missing (options_of host p.built v w) ≡ []
  unfolding missing
  options_missing p v w = refl

  set_handler-Returns :
      (handler : K) (p : Process K S U)
      → assigned p.built.places ≡ served
      → seals_of p ≡ construction_seals
      → Returns (set_handler host handler) p construction_seals
  unfolding Returns eval
  set_handler-Returns handler p e at =
      let (v, read, set) =
        eval-IsGiven host.sdk.part_of p.built.places (place Place.base_app)
          (subst (λ avail. is_ready avail (place Place.base_app) ≡ true) (sym e) base_ready) in
      let base_set : IsGiven (place_value host Place.base_app p.built) =
        subst IsGiven (sym (ok-injective read)) set in
      let (s', e₁, same) =
        works.succeeds.acts Effect.set_ante_handler
          (place_value host Place.base_app p.built ∷ object handler ∷ []) p.built.rest
          (base_set, (tt, tt)) (ante_whole _)
          (subst (λ ss. clear ss (barrier Effect.set_ante_handler) ≡ true) (sym at) ante_lawful) in
      (record p { built = record p.built { rest = s' } }, rw e₁ refl, same ∙ at)

  pub set_ante-Returns :
      (p : Process K S U)
      → Reached host (construction_calls ++ service_calls) p
      → seals_of p ≡ construction_seals
      → Returns (set_ante host) p construction_seals
  unfolding Returns set_ante Reached served
  set_ante-Returns p reached at =
      let (v, w, options) = ante_options-Returns p reached.0 in
      let o = options_of host p.built v w in
      let (register, g) = works.register (place_value host Place.wasm p.built) in
      let (_, _, built) =
        new_ante_handler_builds host.get_gas_register host.chain_ante_decorators o register
          (options_missing p v w) g in
      let (p', e, stand) = set_handler-Returns _ p reached.0 at in
      (
        p',
        bind-passes (λ p. (ante_options host p.built, p))
              (λ o. make_handler host o >>= set_handler host) p (λ i. (options i, p))
            ∙ bind-passes (make_handler host o) (set_handler host) p
                (λ i. (prefixed "failed to create AnteHandler: " (built i), p))
            ∙ e,
        stand,
      )

  pub extend_snapshots-Returns :
      (p : Process K S U)
      → Reached host (construction_calls ++ service_calls) p
      → seals_of p ≡ construction_seals
      → Returns (extend_snapshots host) p construction_seals
  unfolding Returns extend_snapshots
  extend_snapshots-Returns p reached at =
      elim (Bool-cases (host.has_snapshot_manager p.built.rest)) [
        | inl there ↦ rw there (
            run-Returns (construction_calls ++ service_calls) snapshot_calls construction_seals
              construction_seals p reached at snapshots_ready snapshot_lawful snapshot_seals)
        | inr missing ↦ rw missing (p, refl, at)
      ]

  pub load_app-Returns :
      (load_latest : Bool) (cs : List Call) (p : Process K S U)
      → Reached host cs p
      → seals_of p ≡ construction_seals
      → ready (after [] cs) load_calls ≡ true
      → (p' : Process K S U) × (load_app host load_latest p ≡ (ok tt, p'))
  unfolding Returns load_app
  load_app-Returns true cs p reached at h =
      let (p', e, _) =
        run-Returns cs load_calls construction_seals _ p reached at h load_lawful refl in
      (p', e)
  load_app-Returns false cs p reached at h = (p, refl)
