-- ===== src/Tests/Disk.antt =====
-- A disk that logs what is done to it, and the arguments of a test network of two nodes.
use vector_chain.Prelude.{String, true, false, none, List, [], ◌∷◌, ◌++◌, ok, fail, error}
use vector_chain.Prelude.Actions.{Action}
use vector_chain.Testnet.Config.{FilePath, InitArgs, NodeConfig, AppConfig, Env}

abbrev pub Disk : Type 0
Disk = List (String × FilePath)

abbrev pub log : String → FilePath → Action Disk (Unit {0})
log what path d = (ok tt, (what, path) ∷ d)

abbrev pub env : Env Disk String String String
env = record {
  mkdir_all = log "mkdir";
  remove_all = λ path d. ("remove", path) ∷ d;
  write = λ path contents. log "write" path;
  quote = λ path. "quoted";
  marshal_secret = λ secret. ok secret;
  random_text = "abcdef";
  external_ip = fail (error "no external address");
  parse_ipv6 = λ s. none;
  initialize_node_validator_files = λ config d. (ok ("id", "pk"), d);
  genesis_file = λ config. config.root ++ "config" ∷ "genesis.json" ∷ [];
  new_keyring = λ backend dir d. (ok backend, d);
  new_signing_algo = λ algo kb. ok algo;
  generate_save_coin_key = λ kb name algo d. (ok (name, "secret"), d);
  address_string = λ a. a;
  val_address_string = λ a. ok a;
  tokens_from_consensus_power = λ n. n;
  default_bond_denom = "stake";
  sort_coins = λ coins. coins;
  create_validator = λ addr pk coin moniker. ok "msg";
  sign = λ chain_id memo kb name tx. ok tx;
  tx_json = λ tx. ok tx;
  write_app_toml = λ path config d. (ok tt, ("toml", path) ∷ d);
}

abbrev pub args : InitArgs
args = record {
  algo = "secp256k1";
  chain_id = "vector";
  keyring_backend = "test";
  min_gas_prices = "";
  node_daemon_home = "vectord";
  node_dir_prefix = "node";
  num_validators = 2;
  output_dir = "out";
  starting_ip_address = "192.168.0.1";
  single_machine = false;
}

abbrev pub node_config : NodeConfig
node_config = record {
  root = [];
  moniker = "";
  rpc_listen_address = "";
  p2p_listen_address = "";
  addr_book_strict = true;
  pex_reactor = true;
  allow_duplicate_ip = false;
}

abbrev pub app_config : AppConfig
app_config = record {
  min_gas_prices = "";
  api_enable = false;
  api_address = "";
  grpc_address = "";
  grpc_web_enable = false;
  telemetry_enabled = false;
  prometheus_retention_time = 0;
  enable_hostname_label = false;
  global_labels = [];
}
