-- ===== src/Testnet/Run.antt =====
-- The whole of `initTestnetFiles` of cmd/vectord/testnet.go, and `startTestnet`.
use vector_chain.Prelude.{String, text_append, str_eq, true, false, [], ◌∷◌, if◌then◌else◌}
use vector_chain.Prelude.Actions.{Action, ◌>>=◌, ◌>>◌}
use vector_chain.Testnet.Config.{InitArgs, NodeConfig, AppConfig, Env}
use vector_chain.Testnet.Init.{Nodes, init_nodes}
use vector_chain.Testnet.Genesis.{GenesisEnv, init_gen_files, collect_gen_files}

-- `if args.chainID == "" { args.chainID = "chain-" + unsafe.Str(6) }`
unfoldable pub with_chain_id : String → InitArgs → InitArgs
with_chain_id random args = record args {
  chain_id = if str_eq args.chain_id "" then text_append "chain-" random else args.chain_id;
}

-- The configuration of the application, before the loop; `config` is `srvconfig.DefaultConfig()`.
unfoldable pub start_app_config : InitArgs → AppConfig → AppConfig
start_app_config args config = record config {
  min_gas_prices = args.min_gas_prices;
  api_enable = true;
  telemetry_enabled = true;
  prometheus_retention_time = 60;
  enable_hostname_label = false;
  global_labels = ("chain_id" ∷ args.chain_id ∷ []) ∷ [];
}

unfoldable pub start_nodes : {Pk : Type 0} → NodeConfig → AppConfig → Nodes Pk
start_nodes node_config app_config = record {
  node_ids = [];
  val_pub_keys = [];
  gen_accounts = [];
  gen_balances = [];
  gen_files = [];
  node_config = node_config;
  app_config = app_config;
}

module _ {D Kr Pk B Acc G T : Type 0} (env : Env D Kr Pk B) (genv : GenesisEnv D Pk Acc G T) where
  unfoldable pub init_testnet_files : InitArgs → NodeConfig → AppConfig → Action D (Unit {0})
  unfolding with_chain_id start_app_config start_nodes
  init_testnet_files args₀ node_config default_app_config = do
    let args = with_chain_id env.random_text args₀
    nodes ←
        init_nodes env args args.num_validators 0
          (start_nodes node_config (start_app_config args default_app_config))
    init_gen_files genv args.chain_id nodes.gen_accounts nodes.gen_balances nodes.gen_files
        args.num_validators
    collect_gen_files genv args nodes.node_config nodes.node_ids nodes.val_pub_keys
