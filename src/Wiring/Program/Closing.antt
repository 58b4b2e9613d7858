-- ===== src/Wiring/Program/Closing.antt =====
-- What `NewChainApp` registers once the upgrades are, and how it ends.
use vector_chain.Prelude.{List, [], ◌∷◌}
use vector_chain.Wiring.Places.{Place}
use vector_chain.Wiring.Stores.{Subspace}
use vector_chain.Wiring.Calls.{
  place, part, subspace, outside, Call, assign, perform, perform_logged, Part, Effect,
}
use vector_chain.Wiring.Program.Terms.{codec, base, account_keeper}

-- The query services, the simulation, and the stores and methods of the base application.
unfoldable pub service_calls : List Call
service_calls =
    assign Place.auto_cli_service (part Place.manager Part.modules ∷ []) ""
    ∷ perform Effect.register_auto_cli
        (part Place.base_app Part.grpc_query_router ∷ place Place.auto_cli_service ∷ []) ""
    ∷ assign Place.reflection_service [] ""
    ∷ perform Effect.register_reflection
        (part Place.base_app Part.grpc_query_router ∷ place Place.reflection_service ∷ []) ""
    ∷ assign Place.auth_override
        (codec
          ∷ account_keeper
          ∷ outside "authsims.RandomGenesisAccounts"
          ∷ subspace Subspace.auth
          ∷ [])
        ""
    ∷ assign Place.simulation_manager
        (part Place.manager Part.modules ∷ place Place.auth_override ∷ []) ""
    ∷ perform Effect.register_store_decoders (place Place.simulation_manager ∷ []) ""
    ∷ perform Effect.mount_kv_stores (base ∷ place Place.kv_keys ∷ []) ""
    ∷ perform Effect.mount_transient_stores (base ∷ place Place.transient_keys ∷ []) ""
    ∷ perform Effect.mount_memory_stores (base ∷ place Place.memory_keys ∷ []) ""
    ∷ perform Effect.set_init_chainer (base ∷ outside "app.InitChainer" ∷ []) ""
    ∷ perform Effect.set_pre_blocker (base ∷ outside "app.PreBlocker" ∷ []) ""
    ∷ perform Effect.set_begin_blocker (base ∷ outside "app.BeginBlocker" ∷ []) ""
    ∷ perform Effect.set_end_blocker (base ∷ outside "app.EndBlocker" ∷ []) ""
    ∷ []

-- The extension of the snapshots, where there is a manager of snapshots.
unfoldable pub snapshot_calls : List Call
snapshot_calls =
    assign Place.snapshotter (part Place.base_app Part.commit_multi_store ∷ place Place.wasm ∷ [])
      ""
    ∷ perform Effect.register_extensions (place Place.snapshotter ∷ [])
        "failed to register snapshot extension: "
    ∷ []

-- `setPostHandler`, and the check of the annotations, whose error is only written out.
unfoldable pub post_calls : List Call
post_calls =
    assign Place.post_handler (outside "posthandler.HandlerOptions{}" ∷ []) ""
    ∷ perform Effect.set_post_handler (base ∷ place Place.post_handler ∷ []) ""
    ∷ assign Place.proto_files [] ""
    ∷ perform_logged Effect.validate_proto_annotations (place Place.proto_files ∷ [])
    ∷ []

-- The latest version is loaded, and the contracts that are pinned.
unfoldable pub load_calls : List Call
load_calls =
    perform Effect.load_latest_version (base ∷ []) "error loading last version: "
    ∷ assign Place.context (base ∷ outside "tmproto.Header{}" ∷ []) ""
    ∷ perform Effect.initialize_pinned_codes (place Place.wasm ∷ place Place.context ∷ [])
        "failed initialize pinned codes "
    ∷ []
