-- ===== src/Wiring/Program/Managed.antt =====
-- The modules that `NewChainApp` puts into the module manager, with the keepers that each is given,
-- and the orders that it sets.
use vector_chain.Prelude.{List, [], ◌∷◌, map}
use vector_chain.App.Modules.{Module}
use vector_chain.App.Modules
use vector_chain.Wiring.Places.{Place}
use vector_chain.Wiring.Stores.{Subspace}
use vector_chain.Wiring.Calls.{
  Argument, place, part, subspace, names, outside, nil_literal, Call, assign, perform, Part, Effect,
}
use vector_chain.Wiring.Program.Terms.{codec, account_keeper, bank_keeper, staking_keeper}

abbrev module_call : Module → List Argument → Call
module_call m as' = assign (Place.app_module m) as' ""

abbrev registry : Argument
registry = place Place.interface_registry

-- The modules of the SDK, from the genesis transactions to staking.
unfoldable pub sdk_module_calls : List Call
sdk_module_calls =
    module_call Module.genutil
      (account_keeper ∷ staking_keeper ∷ outside "app" ∷ place Place.textual_tx_config ∷ [])
    ∷ module_call Module.auth (
        codec
        ∷ account_keeper
        ∷ outside "authsims.RandomGenesisAccounts"
        ∷ subspace Subspace.auth
        ∷ [])
    ∷ module_call Module.vesting (account_keeper ∷ bank_keeper ∷ [])
    ∷ module_call Module.bank (codec ∷ bank_keeper ∷ account_keeper ∷ subspace Subspace.bank ∷ [])
    ∷ module_call Module.feegrant
        (codec ∷ account_keeper ∷ bank_keeper ∷ place Place.feegrant ∷ registry ∷ [])
    ∷ module_call Module.gov
        (codec ∷ place Place.gov ∷ account_keeper ∷ bank_keeper ∷ subspace Subspace.gov ∷ [])
    ∷ module_call Module.mint (
        codec ∷ place Place.mint ∷ account_keeper ∷ nil_literal "nil" ∷ subspace Subspace.mint ∷ [])
    ∷ module_call Module.slashing (
        codec
        ∷ place Place.slashing
        ∷ account_keeper
        ∷ bank_keeper
        ∷ staking_keeper
        ∷ subspace Subspace.slashing
        ∷ registry
        ∷ [])
    ∷ module_call Module.distribution (
        codec
        ∷ place Place.distribution
        ∷ account_keeper
        ∷ bank_keeper
        ∷ staking_keeper
        ∷ subspace Subspace.distribution
        ∷ [])
    ∷ module_call Module.staking
        (codec ∷ staking_keeper ∷ account_keeper ∷ bank_keeper ∷ subspace Subspace.staking ∷ [])
    ∷ []

-- Those from the upgrades to the circuit breaker.
unfoldable pub service_module_calls : List Call
service_module_calls =
    module_call Module.upgrade (place Place.upgrade ∷ part Place.account Part.address_codec ∷ [])
    ∷ module_call Module.evidence (place Place.evidence ∷ [])
    ∷ module_call Module.params (place Place.params ∷ [])
    ∷ module_call Module.authz
        (codec ∷ place Place.authz ∷ account_keeper ∷ bank_keeper ∷ registry ∷ [])
    ∷ module_call Module.group
        (codec ∷ place Place.group ∷ account_keeper ∷ bank_keeper ∷ registry ∷ [])
    ∷ module_call Module.nft
        (codec ∷ place Place.nft ∷ account_keeper ∷ bank_keeper ∷ registry ∷ [])
    ∷ module_call Module.consensus (codec ∷ place Place.consensus_params ∷ [])
    ∷ module_call Module.circuit (codec ∷ place Place.circuit ∷ [])
    ∷ []

-- Those that are not of the SDK, and the invariants.
unfoldable pub other_module_calls : List Call
other_module_calls =
    module_call Module.capability (codec ∷ place Place.capability ∷ outside "false" ∷ [])
    ∷ module_call Module.wasm (
        codec
        ∷ place Place.wasm
        ∷ staking_keeper
        ∷ account_keeper
        ∷ bank_keeper
        ∷ part Place.base_app Part.msg_service_router
        ∷ subspace Subspace.wasm
        ∷ [])
    ∷ module_call Module.ibc (place Place.ibc ∷ [])
    ∷ module_call Module.transfer (place Place.transfer ∷ [])
    ∷ module_call Module.ibc_fee (place Place.ibc_fee ∷ [])
    ∷ module_call Module.interchain_accounts
        (place Place.ica_controller ∷ place Place.ica_host ∷ [])
    ∷ module_call Module.ibc_tm []
    ∷ module_call Module.crisis (
        place Place.crisis
        ∷ outside "cast.ToBool(appOpts.Get(crisis.FlagSkipGenesisInvariants))"
        ∷ subspace Subspace.crisis
        ∷ [])
    ∷ module_call Module.token_factory (
        place Place.token_factory
        ∷ account_keeper
        ∷ bank_keeper
        ∷ subspace Subspace.token_factory
        ∷ [])
    ∷ module_call Module.packet_forward
        (place Place.packet_forward ∷ subspace Subspace.packet_forward ∷ [])
    ∷ module_call Module.rate_limit (codec ∷ place Place.rate_limit ∷ [])
    ∷ []

-- The two managers.
unfoldable pub manager_calls : List Call
unfolding Modules.module_manager
manager_calls =
    assign Place.manager (map (λ m. place (Place.app_module m)) Modules.module_manager) ""
    ∷ assign Place.genutil_basic (outside "genutiltypes.DefaultMessageValidator" ∷ []) ""
    ∷ assign Place.basic_manager (place Place.manager ∷ place Place.genutil_basic ∷ []) ""
    ∷ perform Effect.basic_legacy_amino_codec
        (place Place.basic_manager ∷ place Place.legacy_amino ∷ []) ""
    ∷ perform Effect.basic_interfaces (place Place.basic_manager ∷ registry ∷ []) ""
    ∷ []

-- The orders of the modules.
unfoldable pub order_calls : List Call
order_calls =
    perform Effect.set_order_pre_blockers (place Place.manager ∷ names Modules.pre_blockers ∷ []) ""
    ∷ perform Effect.set_order_begin_blockers
        (place Place.manager ∷ names Modules.begin_blockers ∷ []) ""
    ∷ perform Effect.set_order_end_blockers (place Place.manager ∷ names Modules.end_blockers ∷ [])
        ""
    ∷ perform Effect.set_order_init_genesis
        (place Place.manager ∷ names Modules.genesis_module_order ∷ []) ""
    ∷ perform Effect.set_order_export_genesis
        (place Place.manager ∷ names Modules.genesis_module_order ∷ []) ""
    ∷ []

-- The invariants, and the services of the modules with the configurator.
unfoldable pub registration_calls : List Call
registration_calls =
    perform Effect.register_invariants (place Place.manager ∷ place Place.crisis ∷ []) ""
    ∷ assign Place.configurator
        (codec
          ∷ part Place.base_app Part.msg_service_router
          ∷ part Place.base_app Part.grpc_query_router
          ∷ [])
        ""
    ∷ perform Effect.register_services (place Place.manager ∷ place Place.configurator ∷ []) ""
    ∷ []
