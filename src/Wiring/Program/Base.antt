-- ===== src/Wiring/Program/Base.antt =====
-- The codecs, the base application with its stores, and the first keepers of `NewChainApp`.
use vector_chain.Prelude.{List, [], ◌∷◌}
use vector_chain.Wiring.Places.{Place}
use vector_chain.Wiring.Stores.{Store, kv_store_keys}
use vector_chain.Wiring.Calls.{
  place, part, kv_store, store_service, stores, outside, Call, assign, perform, Part, Effect,
}
use vector_chain.Wiring.Program.Terms.{codec, base, authority, account_prefix}

-- From the interface registry to the configuration of transactions.
unfoldable pub codec_calls : List Call
codec_calls =
    assign Place.interface_registry
      (outside "proto.HybridResolver"
        ∷ account_prefix
        ∷ outside "sdk.GetConfig().GetBech32ValidatorAddrPrefix()"
        ∷ [])
      ""
    ∷ assign Place.app_codec (place Place.interface_registry ∷ []) ""
    ∷ assign Place.legacy_amino [] ""
    ∷ assign Place.tx_config (codec ∷ outside "authtx.DefaultSignModes" ∷ []) ""
    ∷ perform Effect.register_legacy_amino_codec (place Place.legacy_amino ∷ []) ""
    ∷ perform Effect.register_interfaces (place Place.interface_registry ∷ []) ""
    ∷ []

-- The base application. The options are those given and, behind them, optimistic execution.
unfoldable pub base_app_calls : List Call
base_app_calls =
    assign Place.base_app
      (outside "appName"
        ∷ outside "logger"
        ∷ outside "db"
        ∷ part Place.tx_config Part.tx_decoder
        ∷ outside "append(baseAppOptions, baseapp.SetOptimisticExecution())"
        ∷ [])
      ""
    ∷ perform Effect.set_tracer (base ∷ outside "traceStore" ∷ []) ""
    ∷ perform Effect.set_version (base ∷ outside "version.Version" ∷ []) ""
    ∷ perform Effect.set_interface_registry (base ∷ place Place.interface_registry ∷ []) ""
    ∷ perform Effect.set_tx_encoder (base ∷ part Place.tx_config Part.tx_encoder ∷ []) ""
    ∷ []

-- The maps of the store keys; the names in `keys` are those of `kv_store_keys`.
unfoldable pub store_calls : List Call
store_calls =
    assign Place.kv_keys (stores kv_store_keys ∷ []) ""
    ∷ assign Place.transient_keys (outside "paramstypes.TStoreKey" ∷ []) ""
    ∷ assign Place.memory_keys (outside "capabilitytypes.MemStoreKey" ∷ []) ""
    ∷ perform Effect.register_streaming_services
        (base ∷ outside "appOpts" ∷ place Place.kv_keys ∷ []) ""
    ∷ []

-- The keepers of the parameters, and that of the capabilities, which is sealed once the modules have
-- their scopes.
unfoldable pub first_keeper_calls : List Call
first_keeper_calls =
    assign Place.params
      (codec
        ∷ place Place.legacy_amino
        ∷ kv_store Store.params
        ∷ part Place.transient_keys Part.params_transient
        ∷ [])
      ""
    ∷ assign Place.consensus_params
        (codec ∷ store_service Store.consensus ∷ authority ∷ outside "runtime.EventService{}" ∷ [])
        ""
    ∷ perform Effect.set_param_store (base ∷ part Place.consensus_params Part.params_store ∷ []) ""
    ∷ assign Place.capability
        (codec ∷ kv_store Store.capability ∷ part Place.memory_keys Part.capability_memory ∷ []) ""
    ∷ assign Place.scoped_ibc (place Place.capability ∷ outside "ibcexported.ModuleName" ∷ []) ""
    ∷ assign Place.scoped_ica_host
        (place Place.capability ∷ outside "icahosttypes.SubModuleName" ∷ []) ""
    ∷ assign Place.scoped_ica_controller
        (place Place.capability ∷ outside "icacontrollertypes.SubModuleName" ∷ []) ""
    ∷ assign Place.scoped_transfer
        (place Place.capability ∷ outside "ibctransfertypes.ModuleName" ∷ []) ""
    ∷ assign Place.scoped_wasm (place Place.capability ∷ outside "wasmtypes.ModuleName" ∷ []) ""
    ∷ perform Effect.seal_capabilities (place Place.capability ∷ []) ""
    ∷ []
