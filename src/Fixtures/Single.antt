-- ===== src/Fixtures/Single.antt =====
-- app/test_helpers.go: what is set up with one new validator, and the delivery of a transaction.
use vector_chain.Prelude.{
  ℕ, ◌+◌, String, Bool, Option, none, some, List, [], ◌∷◌, if◌then◌else◌, or_fatal,
}
use vector_chain.Prelude.Actions.{Action, ◌>>=◌, ◌>>◌, lift, pure}
use vector_chain.App.Modules.{Module}
use vector_chain.Fixtures.{Balance, ConsensusValidator, FixtureEnv, genesis_state_with_val_set}
use vector_chain.Fixtures.Setup.{
  InitChainRequest, FinalizeBlockRequest, SetupEnv, required, asked, setup_with_genesis_val_set,
}

module _ {P K A Acc J App S W Db Store Params V Tx : Type 0} (fix : FixtureEnv P K A Acc J)
    (env : SetupEnv P Acc J App S W Db Store Params V Tx) where
  -- A set of one new validator, and a new account with its balance.
  unfoldable pub single_validator : Action S (List (ConsensusValidator P) × (Acc × Balance))
  single_validator = do
    pub_key ← required fix env env.new_pub_key
    acc ← env.new_account
    pure (
      record { pub_key = pub_key; address = env.pub_key_address pub_key } ∷ [],
      (
        acc,
        record {
          address = env.account_address acc;
          coins = (env.bond_denom, 100000000000000) ∷ [];
        },
      ),
    )

  -- `Setup`
  unfoldable pub setup_app : List W → Action S App
  unfolding single_validator setup_with_genesis_val_set
  setup_app wasm_opts = do
    single ← single_validator
    setup_with_genesis_val_set fix env single.0 (single.1.0 ∷ []) "testing" wasm_opts
        (single.1.1 ∷ [])

  -- `GenesisStateWithSingleValidator`
  unfoldable pub genesis_state_with_single_validator : App → Action S (Module → Option J)
  unfolding single_validator
  genesis_state_with_single_validator app = do
    single ← single_validator
    lift (
        or_fatal (
          genesis_state_with_val_set fix (env.default_genesis app) single.0 (single.1.0 ∷ [])
            (single.1.1 ∷ [])))

  abbrev check_tx_request : String → S → InitChainRequest Params
  check_tx_request state_bytes s = record {
    chain_id = "";
    time = none;
    consensus_params = env.default_consensus_params s;
    initial_height = 0;
    app_state_bytes = state_bytes;
  }

  -- `NewChainAppWithCustomOptions`; `new_app` is `NewChainApp` with the given options.
  unfoldable pub new_chain_app_with_custom_options : Action S App → Bool → Action S App
  unfolding single_validator
  new_chain_app_with_custom_options new_app is_check_tx = do
    single ← single_validator
    app ← new_app
    g ← lift (
        or_fatal (
          genesis_state_with_val_set fix (env.default_genesis app) single.0 (single.1.0 ∷ [])
            (single.1.1 ∷ [])))
    (if is_check_tx
        then pure tt
        else (lift (or_fatal (env.marshal_indent g)) >>= λ state_bytes.
            asked fix env (check_tx_request state_bytes) >>= λ request.
            required fix env (env.init_chain app request)))
    pure app

  abbrev tx_request : App → ℕ → String → S → FinalizeBlockRequest
  tx_request app block_time bz s = record {
    height = env.last_block_height app s + 1;
    time = some block_time;
    hash = "";
    next_validators_hash = "";
    txs = bz ∷ [];
  }

  -- `SignAndDeliverWithoutCommit`
  unfoldable pub sign_and_deliver_without_commit : App → ℕ → Action S V
  sign_and_deliver_without_commit app block_time = do
    tx ← required fix env (env.gen_signed_mock_tx env.default_gen_tx_gas)
    bz ← lift (or_fatal (env.tx_encoder tx))
    request ← asked fix env (tx_request app block_time bz)
    env.finalize_block app request
