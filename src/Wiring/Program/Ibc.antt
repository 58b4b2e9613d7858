-- ===== src/Wiring/Program/Ibc.antt =====
-- The keepers of `NewChainApp` for IBC and for contracts.
use vector_chain.Prelude.{List, [], ◌∷◌}
use vector_chain.Wiring.Places.{Place}
use vector_chain.Wiring.Stores.{Store, Subspace}
use vector_chain.Wiring.Calls.{
  place, part, kv_store, store_service, subspace, outside, Call, assign, perform, Part, Effect,
}
use vector_chain.Wiring.Program.Terms.{
  codec, account_keeper, bank_keeper, staking_keeper, authority, ibc_channel_keeper,
  ibc_port_keeper,
}

-- Fees, rate limits, transfers and the forwarding of packets. A keeper sends its packets through the
-- wrapper that it is given: transfers go through the rate limits, and these through the fees.
unfoldable pub transfer_calls : List Call
transfer_calls =
    assign Place.ibc_fee
      (codec
        ∷ kv_store Store.ibc_fee
        ∷ ibc_channel_keeper
        ∷ ibc_channel_keeper
        ∷ ibc_port_keeper
        ∷ account_keeper
        ∷ bank_keeper
        ∷ [])
      ""
    ∷ assign Place.rate_limit
        (codec
          ∷ store_service Store.rate_limit
          ∷ subspace Subspace.rate_limit
          ∷ authority
          ∷ bank_keeper
          ∷ ibc_channel_keeper
          ∷ place Place.ibc_fee
          ∷ [])
        ""
    ∷ assign Place.transfer
        (codec
          ∷ kv_store Store.transfer
          ∷ subspace Subspace.transfer
          ∷ place Place.rate_limit
          ∷ ibc_channel_keeper
          ∷ ibc_port_keeper
          ∷ account_keeper
          ∷ bank_keeper
          ∷ place Place.scoped_transfer
          ∷ authority
          ∷ [])
        ""
    ∷ assign Place.packet_forward
        (codec
          ∷ kv_store Store.packet_forward
          ∷ place Place.transfer
          ∷ ibc_channel_keeper
          ∷ place Place.distribution
          ∷ bank_keeper
          ∷ ibc_channel_keeper
          ∷ authority
          ∷ [])
        ""
    ∷ perform Effect.set_transfer_keeper (place Place.packet_forward ∷ place Place.transfer ∷ []) ""
    ∷ []

-- The interchain accounts.
unfoldable pub ica_calls : List Call
ica_calls =
    assign Place.ica_host
      (codec
        ∷ kv_store Store.ica_host
        ∷ subspace Subspace.ica_host
        ∷ place Place.ibc_fee
        ∷ ibc_channel_keeper
        ∷ ibc_port_keeper
        ∷ account_keeper
        ∷ place Place.scoped_ica_host
        ∷ part Place.base_app Part.msg_service_router
        ∷ authority
        ∷ [])
      ""
    ∷ perform Effect.with_query_router
        (place Place.ica_host ∷ part Place.base_app Part.grpc_query_router ∷ []) ""
    ∷ assign Place.ica_controller
        (codec
          ∷ kv_store Store.ica_controller
          ∷ subspace Subspace.ica_controller
          ∷ place Place.ibc_fee
          ∷ ibc_channel_keeper
          ∷ ibc_port_keeper
          ∷ place Place.scoped_ica_controller
          ∷ part Place.base_app Part.msg_service_router
          ∷ authority
          ∷ [])
        ""
    ∷ []

-- The contracts, with the capabilities of `AllCapabilities` and, behind the options given, the
-- plugins of the token factory.
unfoldable pub wasm_calls : List Call
wasm_calls =
    assign Place.wasm_config (outside "appOpts" ∷ []) "error while reading wasm config: "
    ∷ assign Place.wasm
        (codec
          ∷ store_service Store.wasm
          ∷ account_keeper
          ∷ bank_keeper
          ∷ staking_keeper
          ∷ part Place.distribution Part.querier
          ∷ place Place.ibc_fee
          ∷ ibc_channel_keeper
          ∷ ibc_port_keeper
          ∷ place Place.scoped_wasm
          ∷ place Place.transfer
          ∷ part Place.base_app Part.msg_service_router
          ∷ part Place.base_app Part.grpc_query_router
          ∷ outside "filepath.Join(homePath, \"data\")"
          ∷ place Place.wasm_config
          ∷ outside "AllCapabilities()"
          ∷ authority
          ∷ outside "wasmOpts"
          ∷ bank_keeper
          ∷ place Place.token_factory
          ∷ [])
        ""
    ∷ []
