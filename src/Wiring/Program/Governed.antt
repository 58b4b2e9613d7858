-- ===== src/Wiring/Program/Governed.antt =====
-- The keepers of `NewChainApp` from the upgrades to the tokens that users make.
use vector_chain.Prelude.{List, [], ◌∷◌}
use vector_chain.Wiring.Places.{Place}
use vector_chain.Wiring.Stores.{Store, Subspace}
use vector_chain.Wiring.Calls.{
  place, part, kv_store, store_service, subspace, outside, Call, assign, perform, Part, Effect,
}
use vector_chain.Wiring.Program.Terms.{
  codec, base, account_keeper, bank_keeper, staking_keeper, authority,
}

-- The upgrades and IBC, and the hooks of the staking keeper, which it keeps by reference.
unfoldable pub upgrade_calls : List Call
upgrade_calls =
    assign Place.upgrade
      (outside "skipUpgradeHeights"
        ∷ store_service Store.upgrade
        ∷ codec
        ∷ outside "cast.ToString(appOpts.Get(flags.FlagHome))"
        ∷ base
        ∷ authority
        ∷ [])
      ""
    ∷ assign Place.ibc
        (codec
          ∷ kv_store Store.ibc
          ∷ subspace Subspace.ibc
          ∷ staking_keeper
          ∷ place Place.upgrade
          ∷ place Place.scoped_ibc
          ∷ authority
          ∷ [])
        ""
    ∷ perform Effect.set_staking_hooks
        (staking_keeper ∷ part Place.distribution Part.hooks ∷ part Place.slashing Part.hooks ∷ [])
        ""
    ∷ []

-- The governance module with its legacy routes.
unfoldable pub gov_calls : List Call
gov_calls =
    assign Place.gov_router [] ""
    ∷ perform Effect.add_gov_route
        (place Place.gov_router ∷ outside "govv1beta1.ProposalHandler" ∷ []) ""
    ∷ perform Effect.add_params_route (place Place.gov_router ∷ place Place.params ∷ []) ""
    ∷ assign Place.gov_config (outside "MaxMetadataLen = 20000" ∷ []) ""
    ∷ assign Place.gov_keeper
        (codec
          ∷ store_service Store.gov
          ∷ account_keeper
          ∷ bank_keeper
          ∷ staking_keeper
          ∷ place Place.distribution
          ∷ part Place.base_app Part.msg_service_router
          ∷ place Place.gov_config
          ∷ authority
          ∷ [])
        ""
    ∷ perform Effect.set_legacy_router (place Place.gov_keeper ∷ place Place.gov_router ∷ []) ""
    ∷ assign Place.gov (place Place.gov_keeper ∷ outside "govtypes.NewMultiGovHooks()" ∷ []) ""
    ∷ []

-- The NFTs, the evidence and the token factory; the capabilities of the last are its list of texts.
unfoldable pub custom_calls : List Call
custom_calls =
    assign Place.nft (store_service Store.nft ∷ codec ∷ account_keeper ∷ bank_keeper ∷ []) ""
    ∷ assign Place.evidence
        (codec
          ∷ store_service Store.evidence
          ∷ staking_keeper
          ∷ place Place.slashing
          ∷ part Place.account Part.address_codec
          ∷ outside "runtime.ProvideCometInfoService()"
          ∷ [])
        ""
    ∷ assign Place.token_factory
        (codec
          ∷ kv_store Store.token_factory
          ∷ outside "maccPerms"
          ∷ account_keeper
          ∷ bank_keeper
          ∷ place Place.distribution
          ∷ outside "EnableBurnFrom"
          ∷ outside "EnableForceTransfer"
          ∷ outside "EnableSetMetadata"
          ∷ outside "EnableCommunityPoolFeeFunding"
          ∷ outside "tokenfactorykeeper.DefaultIsSudoAdminFunc"
          ∷ authority
          ∷ [])
        ""
    ∷ []
