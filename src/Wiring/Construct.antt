-- ===== src/Wiring/Construct.antt =====
-- `NewChainApp` of app/app.go as a whole: the calls with what stands between them, which is the
-- registration of the upgrades (app/upgrades.go), the ante handler (app/ante.go), the snapshots and
-- the choice of loading the latest version.
use vector_chain.Prelude.{
  Bool, Option, none, some, List, [], ◌∷◌, ◌++◌, if◌then◌else◌, Outcome, ok, fail,
}
use vector_chain.Prelude.Results
use vector_chain.Prelude.Actions.{Action, ◌>>=◌, ◌>>◌, pure, lift}
use vector_chain.Ante.{HandlerOptions, AnteDecorator, WasmConfig, new_ante_handler}
use vector_chain.Upgrades.{ModuleManager, UpgradeKeeper, App, register_upgrade_handlers}
use vector_chain.Wiring.Places.{Place}
use vector_chain.Wiring.Stores.{Store}
use vector_chain.Wiring.Calls.{
  Argument, place, part, store_service, outside, Part, Effect, Value, nil, object, Call, Sdk, Built,
  found, find, eval, arguments, prefixed, guarded, run_calls,
}
use vector_chain.Wiring.Program.Base.{codec_calls, base_app_calls, store_calls, first_keeper_calls}
use vector_chain.Wiring.Program.Keepers.{account_calls, staking_calls, grant_calls}
use vector_chain.Wiring.Program.Governed.{upgrade_calls, gov_calls, custom_calls}
use vector_chain.Wiring.Program.Ibc.{transfer_calls, ica_calls, wasm_calls}
use vector_chain.Wiring.Program.Stacks.{transfer_stack_calls, other_stack_calls, route_calls}
use vector_chain.Wiring.Program.Managed.{
  sdk_module_calls, service_module_calls, other_module_calls, manager_calls, order_calls,
  registration_calls,
}
use vector_chain.Wiring.Program.Closing.{service_calls, snapshot_calls, post_calls, load_calls}

abbrev joined : List (List Call) → List Call
joined [] = []
joined (cs ∷ css) = cs ++ joined css

-- From the first line to the registration of the modules' services.
unfoldable pub construction_calls : List Call
unfolding codec_calls base_app_calls store_calls first_keeper_calls account_calls staking_calls
    grant_calls upgrade_calls gov_calls custom_calls transfer_calls ica_calls wasm_calls
    transfer_stack_calls other_stack_calls route_calls sdk_module_calls service_module_calls
    other_module_calls manager_calls order_calls registration_calls
construction_calls = joined (
    codec_calls ∷ base_app_calls ∷ store_calls ∷ first_keeper_calls ∷ account_calls ∷ staking_calls
    ∷ grant_calls ∷ upgrade_calls ∷ gov_calls ∷ custom_calls ∷ transfer_calls ∷ ica_calls
    ∷ wasm_calls ∷ transfer_stack_calls ∷ other_stack_calls ∷ route_calls ∷ sdk_module_calls
    ∷ service_module_calls ∷ other_module_calls ∷ manager_calls ∷ order_calls ∷ registration_calls
    ∷ [])

-- What the steps between the calls need of the SDK, with `U` the upgrade keeper's state. A manager,
-- a configurator and the keepers that an upgrade is given are values that are assigned.
pub record Host (K S U : Type 0) : Type 0 where
  pub sdk : Sdk K S
  pub as_manager : Value K → ModuleManager S (Value K) (List (Value K))
  pub upgrade_keeper : UpgradeKeeper S (Value K) (List (Value K)) U
  pub get_gas_register : Option (Value K) → Outcome (Value K)
  pub chain_ante_decorators : List (AnteDecorator (Value K)) → K
  pub as_wasm_config : Value K → WasmConfig
  -- `app.SnapshotManager() != nil`
  pub has_snapshot_manager : S → Bool

-- The application with the variables of `NewChainApp`, and what the upgrades change of it.
pub record Process (K S U : Type 0) : Type 0 where
  pub built : Built K S
  pub upgrades : App S (Value K) (List (Value K)) U

abbrev pub pointer : {K : Type 0} → Value K → Option (Value K)
pointer nil = none
pointer v = some v

module _ {K S U : Type 0} (host : Host K S U) where
  abbrev pub on_built : {A : Type 0} → Action (Built K S) A → Action (Process K S U) A
  on_built m p = let (r, b) = m p.built in (r, record p { built = b })

  abbrev pub run : List Call → Action (Process K S U) (Unit {0})
  run cs = on_built (run_calls host.sdk cs)

  abbrev pub place_value : Place → Built K S → Value K
  place_value p b = found (find p b.places)

  -- `upgrades.AppKeepers`; `GetStoreKey` is a method of the application.
  abbrev pub app_keepers : List Argument
  app_keepers =
      place Place.account
      ∷ place Place.params
      ∷ place Place.consensus_params
      ∷ place Place.capability
      ∷ place Place.ibc
      ∷ place Place.app_codec
      ∷ outside "app.GetKey"
      ∷ []

  abbrev pub registered :
      Outcome (App S (Value K) (List (Value K)) U) → Action (Process K S U) (Unit {0})
  registered (ok app) p = (ok tt, record p { upgrades = app })
  registered (fail x) p = (fail x, p)

  abbrev pub register_with : List (Value K) → Action (Process K S U) (Unit {0})
  register_with keepers p =
      registered
        (register_upgrade_handlers host.upgrade_keeper
          (host.as_manager (place_value Place.manager p.built))
          (place_value Place.configurator p.built) keepers p.upgrades)
        p

  -- `app.RegisterUpgradeHandlers()`
  unfoldable pub register_upgrades : Action (Process K S U) (Unit {0})
  register_upgrades = do keepers ← on_built (arguments host.sdk app_keepers); register_with keepers

  -- The options of the ante handler. Those that are addresses or interfaces made of structures are
  -- never nil.
  abbrev pub options_of : Built K S → Value K → Value K → HandlerOptions (Value K)
  options_of b sign_mode_handler tx_counter = record {
    account_keeper = some (place_value Place.account b);
    bank_keeper = some (place_value Place.bank b);
    extension_option_checker = none;
    feegrant_keeper = some (place_value Place.feegrant b);
    sign_mode_handler = some sign_mode_handler;
    sig_gas_consumer = some (Value.constant (outside "ante.DefaultSigVerificationGasConsumer"));
    tx_fee_checker = none;
    ibc_keeper = pointer (place_value Place.ibc b);
    wasm_config = some (host.as_wasm_config (place_value Place.wasm_config b));
    wasm_keeper = some (place_value Place.wasm b);
    tx_counter_store_service = some tx_counter;
    circuit_keeper = some (place_value Place.circuit b);
    bypass_min_fee_msg_types = [];
  }

  unfoldable pub ante_options : Built K S → Outcome (HandlerOptions (Value K))
  ante_options b =
      Results.◌>>=◌
        (eval host.sdk.part_of b.places (part Place.textual_tx_config Part.sign_mode_handler))
        λ sign_mode_handler.
          Results.◌>>=◌ (eval host.sdk.part_of b.places (store_service Store.wasm))
            λ tx_counter. ok (options_of b sign_mode_handler tx_counter)

  abbrev pub set_handler : K → Action (Process K S U) (Unit {0})
  set_handler handler = on_built λ b.
      guarded host.sdk ""
        (host.sdk.act Effect.set_ante_handler (place_value Place.base_app b ∷ object handler ∷ []))
        b

  abbrev pub make_handler : HandlerOptions (Value K) → Action (Process K S U) K
  make_handler options = lift (
      prefixed "failed to create AnteHandler: "
        (new_ante_handler host.get_gas_register host.chain_ante_decorators options))

  -- The handler is made and set.
  unfoldable pub set_ante : Action (Process K S U) (Unit {0})
  unfolding ante_options
  set_ante = do
    options ← λ p. (ante_options p.built, p)
    handler ← make_handler options
    set_handler handler

  unfoldable pub extend_snapshots : Action (Process K S U) (Unit {0})
  extend_snapshots p =
      let extend = run snapshot_calls p in
      if host.has_snapshot_manager p.built.rest then extend else (ok tt, p)

  -- `if loadLatest`
  unfoldable pub load_app : Bool → Action (Process K S U) (Unit {0})
  load_app load_latest = if load_latest then run load_calls else pure tt

  unfoldable pub new_chain_app : Bool → Action (Process K S U) (Unit {0})
  unfolding register_upgrades set_ante extend_snapshots load_app
  new_chain_app load_latest = do
    run construction_calls
    register_upgrades
    run service_calls
    set_ante
    extend_snapshots
    run post_calls
    load_app load_latest
