-- ===== src/Commands/Tree.antt =====
-- The commands of cmd/vectord/commands.go: `initRootCmd` with the groups of commands below it. The
-- commands themselves are cobra's, and most of them are made by the SDK and by wasmd.
use vector_chain.Prelude.{String, List, [], ◌∷◌, ℤ, Bool, Outcome}
use vector_chain.Commands.{AppOptions, Chain, new_app, app_export}

-- The fields of a `cobra.Command` that are set, other than its function.
pub record CommandTexts : Type 0 where
  pub name : String
  pub aliases : List String
  pub short : String

-- What is called to make commands. `Cmd` is a command, `T` a transaction configuration, `B` a basic
-- manager; `creator` and `exporter` are the types of `newApp` and `appExport`.
pub record CommandMakers (Cmd T B C E : Type 0) : Type 0 where
  pub validated_group : CommandTexts → Cmd
  pub add_command : Cmd → List Cmd → Cmd
  pub init_cmd : B → String → Cmd
  pub testnet_start_cmd : Cmd
  pub testnet_init_files_cmd : B → Cmd
  pub debug_cmd : Cmd
  pub config_command : Cmd
  pub pruning_cmd : (AppOptions → Outcome C) → String → Cmd
  pub snapshot_cmd : (AppOptions → Outcome C) → Cmd
  pub add_server_commands :
      String
      → (AppOptions → Outcome C)
      → (ℤ → Bool → List String → AppOptions → List String → Outcome E)
      → (Cmd → Cmd)
      → Cmd
      → Cmd
  pub extend_unsafe_reset_all_cmd : Cmd → Cmd
  pub crisis_add_module_init_flags : Cmd → Cmd
  pub wasm_add_module_init_flags : Cmd → Cmd
  pub status_command : Cmd
  pub genesis_commands : T → B → String → Cmd
  pub query_event_for_tx_cmd : Cmd
  pub query_block_cmd : Cmd
  pub query_txs_by_events_cmd : Cmd
  pub query_blocks_cmd : Cmd
  pub query_tx_cmd : Cmd
  pub query_block_results_cmd : Cmd
  pub sign_command : Cmd
  pub sign_batch_command : Cmd
  pub multi_sign_command : Cmd
  pub multi_sign_batch_cmd : Cmd
  pub validate_signatures_command : Cmd
  pub broadcast_command : Cmd
  pub encode_command : Cmd
  pub decode_command : Cmd
  pub simulate_cmd : Cmd
  pub keys_commands : Cmd

module _ {Cmd T B C E BaseOption : Type 0} (make : CommandMakers Cmd T B C E)
    (chain : Chain C E BaseOption) where
  unfoldable pub add_module_init_flags : Cmd → Cmd
  add_module_init_flags start_cmd =
      make.wasm_add_module_init_flags (make.crisis_add_module_init_flags start_cmd)

  -- `for _, subCmd := range cmds { cmd.AddCommand(subCmd) }`
  abbrev add_each : Cmd → List Cmd → Cmd
  add_each cmd [] = cmd
  add_each cmd (sub_cmd ∷ cmds) = add_each (make.add_command cmd (sub_cmd ∷ [])) cmds

  unfoldable pub genesis_command : String → T → B → List Cmd → Cmd
  genesis_command default_node_home tx_config basic_manager cmds =
      add_each (make.genesis_commands tx_config basic_manager default_node_home) cmds

  unfoldable pub query_command : Cmd
  query_command =
      make.add_command
        (make.validated_group
          (record { name = "query"; aliases = "q" ∷ []; short = "Querying subcommands" }))
        (make.query_event_for_tx_cmd ∷ make.query_block_cmd ∷ make.query_txs_by_events_cmd
          ∷ make.query_blocks_cmd ∷ make.query_tx_cmd ∷ make.query_block_results_cmd ∷ [])

  unfoldable pub tx_command : Cmd
  tx_command =
      make.add_command
        (make.validated_group
          (record { name = "tx"; aliases = []; short = "Transactions subcommands" }))
        (make.sign_command ∷ make.sign_batch_command ∷ make.multi_sign_command
          ∷ make.multi_sign_batch_cmd ∷ make.validate_signatures_command ∷ make.broadcast_command
          ∷ make.encode_command ∷ make.decode_command ∷ make.simulate_cmd ∷ [])

  -- `NewTestnetCmd` of cmd/vectord/testnet.go.
  unfoldable pub new_testnet_cmd : B → Cmd
  new_testnet_cmd mbm =
      let testnet_cmd = make.validated_group (record {
        name = "testnet";
        aliases = [];
        short = "subcommands for starting or configuring local testnets";
      }) in
      let started = make.add_command testnet_cmd (make.testnet_start_cmd ∷ []) in
      make.add_command started (make.testnet_init_files_cmd mbm ∷ [])

  -- `initRootCmd`, behind the sealing of the configuration.
  unfoldable pub add_root_commands : String → T → B → Cmd → Cmd
  unfolding add_module_init_flags genesis_command query_command tx_command new_testnet_cmd
  add_root_commands default_node_home tx_config basic_manager root_cmd =
      let r₁ = make.add_command root_cmd (
        make.init_cmd basic_manager default_node_home
        ∷ new_testnet_cmd basic_manager
        ∷ make.debug_cmd
        ∷ make.config_command
        ∷ make.pruning_cmd (new_app chain) default_node_home
        ∷ make.snapshot_cmd (new_app chain)
        ∷ []) in
      let r₂ =
        make.add_server_commands default_node_home (new_app chain) (app_export chain)
          add_module_init_flags r₁ in
      make.add_command (make.extend_unsafe_reset_all_cmd r₂) (
        make.status_command
        ∷ genesis_command default_node_home tx_config basic_manager []
        ∷ query_command
        ∷ tx_command
        ∷ make.keys_commands
        ∷ [])
