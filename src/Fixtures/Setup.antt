-- ===== src/Fixtures/Setup.antt =====
-- app/test_helpers.go: the applications that are set up for a test.
use vector_chain.Prelude.{
  ℕ, ◌+◌, ◌*◌, String, text_append, Bool, true, false, Option, none, some, List, [], if◌then◌else◌,
  Outcome, ok, or_fatal,
}
use vector_chain.Prelude.Actions.{Action, ◌>>=◌, ◌>>◌, lift, pure}
use vector_chain.App.Modules.{Module}
use vector_chain.Fixtures.{Balance, ConsensusValidator, FixtureEnv, genesis_state_with_val_set}

-- What the application is made with, other than an empty logger and an in-memory database: its home,
-- `FlagInvCheckPeriod`, the options of wasm, and those of the base application.
pub record SetupOptions (W Store : Type 0) : Type 0 where
  pub home : String
  pub inv_check_period : ℕ
  pub wasm_opts : List W
  pub chain_id : String
  pub snapshot_store : Store
  pub snapshot_keep_recent : ℕ

-- `abci.RequestInitChain`, as far as it is set; `Params` are consensus parameters.
pub record InitChainRequest (Params : Type 0) : Type 0 where
  pub chain_id : String
  pub time : Option ℕ
  pub consensus_params : Params
  pub initial_height : ℕ
  pub app_state_bytes : String

-- `abci.RequestFinalizeBlock`, as far as it is set.
pub record FinalizeBlockRequest : Type 0 where
  pub height : ℕ
  pub time : Option ℕ
  pub hash : String
  pub next_validators_hash : String
  pub txs : List String

-- What is called of the testing package, of the SDK and of CometBFT. `S` is the process of the test
-- with its applications, of type `App`; `V` is the response of a block. `require_no_error` ends the
-- test. The default consensus parameters are a pointer to a variable of the SDK.
pub record SetupEnv (P Acc J App S W Db Store Params V Tx : Type 0) : Type 0 where
  pub test_temp_dir : Action S String
  pub new_db : String → String → Action S Db
  pub close_after_test : Db → S → S
  pub new_store : Db → String → Action S Store
  pub new_chain_app : SetupOptions W Store → Action S App
  pub default_genesis : App → Module → Option J
  pub marshal_indent : (Module → Option J) → Outcome String
  pub default_consensus_params : S → Params
  pub set_default_max_gas : ℕ → S → S
  pub default_gen_tx_gas : ℕ
  pub now : S → ℕ
  pub last_block_height : App → S → ℕ
  pub last_commit_hash : App → S → String
  pub val_set_hash : List (ConsensusValidator P) → String
  pub init_chain : App → InitChainRequest Params → Action S (Unit {0})
  pub finalize_block : App → FinalizeBlockRequest → Action S V
  -- a new validator of power one, and a new account
  pub new_pub_key : Action S P
  pub pub_key_address : P → List ℕ
  pub new_account : Action S Acc
  pub account_address : Acc → String
  pub bond_denom : String
  -- a signed transaction, and its bytes
  pub gen_signed_mock_tx : ℕ → Action S Tx
  pub tx_encoder : Tx → Outcome String

module _ {P K A Acc J App S W Db Store Params V Tx : Type 0} (fix : FixtureEnv P K A Acc J)
    (env : SetupEnv P Acc J App S W Db Store Params V Tx) where
  -- `require.NoError`
  abbrev pub required : {B : Type 0} → Action S B → Action S B
  required m s = let (r, s') = m s in (or_fatal r, s')

  abbrev pub effect : (S → S) → Action S (Unit {0})
  effect f s = (ok tt, f s)

  abbrev pub asked : {B : Type 0} → (S → B) → Action S B
  asked f s = (ok (f s), s)

  abbrev no_genesis : Module → Option J
  no_genesis m = none

  abbrev pub with_default : Bool → App → App × (Module → Option J)
  with_default with_genesis app =
      (app, (if with_genesis then env.default_genesis app else no_genesis))

  abbrev pub make_app : String → ℕ → List W → String → Action S App
  make_app chain_id inv_check_period wasm_opts node_home = do
    let snapshot_dir = text_append node_home "/data/snapshots"
    snapshot_db ← required (env.new_db "metadata" snapshot_dir)
    effect (env.close_after_test snapshot_db)
    snapshot_store ← required (env.new_store snapshot_db snapshot_dir)
    env.new_chain_app (record {
      home = node_home;
      inv_check_period = inv_check_period;
      wasm_opts = wasm_opts;
      chain_id = chain_id;
      snapshot_store = snapshot_store;
      snapshot_keep_recent = 2;
    })

  unfoldable pub setup : String → Bool → ℕ → List W → Action S (App × (Module → Option J))
  setup chain_id with_genesis inv_check_period wasm_opts =
      env.test_temp_dir >>= make_app chain_id inv_check_period wasm_opts >>= λ app.
      pure (with_default with_genesis app)

  -- `SetupWithEmptyStore`
  unfoldable pub setup_with_empty_store : Action S App
  unfolding setup
  setup_with_empty_store = do made ← setup "testing" false 0 []; pure made.0

  -- The default parameters are changed where they are, and then read.
  abbrev pub init_request : String → App → String → S → InitChainRequest Params
  init_request chain_id app state_bytes s = record {
    chain_id = chain_id;
    time = some (env.now s);
    consensus_params = env.default_consensus_params s;
    initial_height = env.last_block_height app s + 1;
    app_state_bytes = state_bytes;
  }

  abbrev pub initialize : String → App → String → Action S (Unit {0})
  initialize chain_id app state_bytes =
      effect (env.set_default_max_gas (100 * env.default_gen_tx_gas))
      >> (asked (init_request chain_id app state_bytes) >>= λ request.
          required (env.init_chain app request))

  abbrev pub first_request : App → List (ConsensusValidator P) → S → FinalizeBlockRequest
  first_request app val_set s = record {
    height = env.last_block_height app s + 1;
    time = none;
    hash = env.last_commit_hash app s;
    next_validators_hash = env.val_set_hash val_set;
    txs = [];
  }

  abbrev pub finalize_first : App → List (ConsensusValidator P) → Action S App
  finalize_first app val_set = asked (first_request app val_set) >>= λ request.
      required (env.finalize_block app request) >>= λ response. pure app

  abbrev pub state_bytes_of :
      (Module → Option J) → List (ConsensusValidator P) → List Acc → List Balance → Action S String
  state_bytes_of genesis_state val_set gen_accs balances = do
    g ← lift (or_fatal (genesis_state_with_val_set fix genesis_state val_set gen_accs balances))
    lift (or_fatal (env.marshal_indent g))

  -- The application with its genesis, started and at its first block.
  abbrev pub start_with :
      String
      → List (ConsensusValidator P)
      → List Acc
      → List Balance
      → App × (Module → Option J)
      → Action S App
  start_with chain_id val_set gen_accs balances made =
      state_bytes_of made.1 val_set gen_accs balances >>= λ state_bytes.
      initialize chain_id made.0 state_bytes >> finalize_first made.0 val_set

  -- `SetupWithGenesisValSet`
  unfoldable pub setup_with_genesis_val_set :
      List (ConsensusValidator P) → List Acc → String → List W → List Balance → Action S App
  unfolding setup
  setup_with_genesis_val_set val_set gen_accs chain_id wasm_opts balances =
      setup chain_id true 5 wasm_opts >>= start_with chain_id val_set gen_accs balances
