-- ===== src/Wiring/Program/Keepers.antt =====
-- The keepers of `NewChainApp` from the accounts to the groups.
use vector_chain.Prelude.{List, [], ◌∷◌}
use vector_chain.Wiring.Places.{Place}
use vector_chain.Wiring.Stores.{Store}
use vector_chain.Wiring.Calls.{
  place, part, kv_store, store_service, outside, Call, assign, perform, Part, Effect,
}
use vector_chain.Wiring.Program.Terms.{
  codec, base, account_keeper, bank_keeper, staking_keeper, authority, fee_collector,
  account_prefix,
}

-- The accounts and the bank; the configuration of transactions is made again with the textual sign
-- mode, which asks the bank.
unfoldable pub account_calls : List Call
account_calls =
    assign Place.account
      (codec
        ∷ store_service Store.auth
        ∷ outside "authtypes.ProtoBaseAccount"
        ∷ outside "maccPerms"
        ∷ outside "authcodec.NewBech32Codec(sdk.GetConfig().GetBech32AccountAddrPrefix())"
        ∷ account_prefix
        ∷ authority
        ∷ [])
      ""
    ∷ assign Place.bank
        (codec
          ∷ store_service Store.bank
          ∷ account_keeper
          ∷ outside "BlockedAddresses()"
          ∷ authority
          ∷ outside "logger"
          ∷ [])
        ""
    ∷ assign Place.textual_tx_config
        (codec
          ∷ outside "append(tx.DefaultSignModes, signingtype.SignMode_SIGN_MODE_TEXTUAL)"
          ∷ bank_keeper
          ∷ [])
        ""
    ∷ []

-- Staking, inflation, distribution, slashing and the invariants.
unfoldable pub staking_calls : List Call
staking_calls =
    assign Place.staking
      (codec
        ∷ store_service Store.staking
        ∷ account_keeper
        ∷ bank_keeper
        ∷ authority
        ∷ outside "authcodec.NewBech32Codec(sdk.GetConfig().GetBech32ValidatorAddrPrefix())"
        ∷ outside "authcodec.NewBech32Codec(sdk.GetConfig().GetBech32ConsensusAddrPrefix())"
        ∷ [])
      ""
    ∷ assign Place.mint
        (codec
          ∷ store_service Store.mint
          ∷ staking_keeper
          ∷ account_keeper
          ∷ bank_keeper
          ∷ fee_collector
          ∷ authority
          ∷ [])
        ""
    ∷ assign Place.distribution
        (codec
          ∷ store_service Store.distribution
          ∷ account_keeper
          ∷ bank_keeper
          ∷ staking_keeper
          ∷ fee_collector
          ∷ authority
          ∷ [])
        ""
    ∷ assign Place.slashing
        (codec
          ∷ place Place.legacy_amino
          ∷ store_service Store.slashing
          ∷ staking_keeper
          ∷ authority
          ∷ [])
        ""
    ∷ assign Place.crisis
        (codec
          ∷ store_service Store.crisis
          ∷ outside "cast.ToUint(appOpts.Get(server.FlagInvCheckPeriod))"
          ∷ bank_keeper
          ∷ fee_collector
          ∷ authority
          ∷ part Place.account Part.address_codec
          ∷ [])
        ""
    ∷ []

-- Fee grants, the circuit breaker, authorizations and groups.
unfoldable pub grant_calls : List Call
grant_calls =
    assign Place.feegrant (codec ∷ store_service Store.feegrant ∷ account_keeper ∷ []) ""
    ∷ assign Place.circuit
        (codec
          ∷ store_service Store.circuit
          ∷ authority
          ∷ part Place.account Part.address_codec
          ∷ [])
        ""
    ∷ perform Effect.set_circuit_breaker (base ∷ place Place.circuit ∷ []) ""
    ∷ assign Place.authz
        (store_service Store.authz
          ∷ codec
          ∷ part Place.base_app Part.msg_service_router
          ∷ account_keeper
          ∷ [])
        ""
    ∷ assign Place.group_config (outside "MaxMetadataLen = 10000" ∷ []) ""
    ∷ assign Place.group
        (kv_store Store.group
          ∷ codec
          ∷ part Place.base_app Part.msg_service_router
          ∷ account_keeper
          ∷ place Place.group_config
          ∷ [])
        ""
    ∷ []
