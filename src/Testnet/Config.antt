-- ===== src/Testnet/Config.antt =====
-- cmd/vectord/testnet.go: the arguments of its commands, the node and application configurations as
-- far as they are set, the ports, and what `initTestnetFiles` calls of the SDK, of CometBFT and of
-- the operating system.
use vector_chain.Prelude.{
  ℕ, ◌+◌, String, text_append, Bool, Option, List, [], ◌∷◌, if◌then◌else◌, decimal, Outcome,
}
use vector_chain.Prelude.Actions.{Action}
use vector_chain.Testnet.Address.{Ip}

-- A path, as the elements that `filepath.Join` is given.
abbrev pub FilePath : Type 0
FilePath = List String

pub record InitArgs : Type 0 where
  pub algo : String
  pub chain_id : String
  pub keyring_backend : String
  pub min_gas_prices : String
  pub node_daemon_home : String
  pub node_dir_prefix : String
  pub num_validators : ℕ
  pub output_dir : String
  pub starting_ip_address : String
  pub single_machine : Bool

-- The fields of `cmtconfig.Config` that are set.
pub record NodeConfig : Type 0 where
  pub root : FilePath
  pub moniker : String
  pub rpc_listen_address : String
  pub p2p_listen_address : String
  pub addr_book_strict : Bool
  pub pex_reactor : Bool
  pub allow_duplicate_ip : Bool

-- The fields of `srvconfig.Config` that are set.
pub record AppConfig : Type 0 where
  pub min_gas_prices : String
  pub api_enable : Bool
  pub api_address : String
  pub grpc_address : String
  pub grpc_web_enable : Bool
  pub telemetry_enabled : Bool
  pub prometheus_retention_time : ℕ
  pub enable_hostname_label : Bool
  pub global_labels : List (List String)

-- The ports that a node listens on.
pub data Service : Type 0 where
  rpc api grpc p2p : Service

-- `rpcPort`, `apiPort`, `grpcPort`, and `p2pPortStart` once the loop has come to a node.
unfoldable pub port_start : Service → Bool → ℕ
port_start rpc single_machine = 26657
port_start api single_machine = 1317
port_start grpc single_machine = 9090
port_start p2p single_machine = if single_machine then 16656 else 26656

-- `portOffset` of node i.
unfoldable pub port_offset : Bool → ℕ → ℕ
port_offset single_machine i = if single_machine then i else 0

unfoldable pub port_of : Service → Bool → ℕ → ℕ
unfolding port_start port_offset
port_of service single_machine i = port_start service single_machine + port_offset single_machine i

unfoldable pub node_dir_name : String → ℕ → String
node_dir_name prefix i = text_append prefix (decimal i)

unfoldable pub node_dir : InitArgs → ℕ → FilePath
unfolding node_dir_name
node_dir args i =
    args.output_dir ∷ node_dir_name args.node_dir_prefix i ∷ args.node_daemon_home ∷ []

abbrev pub gentxs_dir : InitArgs → FilePath
gentxs_dir args = args.output_dir ∷ "gentxs" ∷ []

abbrev pub tcp_any : ℕ → String
tcp_any port = text_append "tcp://0.0.0.0:" (decimal port)

-- `fmt.Sprintf("%s@%s:%d", nodeIDs[i], ip, p2pPortStart+portOffset)`
unfoldable pub node_memo : String → String → ℕ → String
node_memo id ip port =
    text_append id (text_append "@" (text_append ip (text_append ":" (decimal port))))

pub record Balance : Type 0 where
  pub address : String
  pub coins : List (String × ℕ)

-- `D` is the disk, `Kr` a keyring, `Pk` a public key, `B` a transaction builder.
pub record Env (D Kr Pk B : Type 0) : Type 0 where
  -- the operating system
  pub mkdir_all : FilePath → Action D (Unit {0})
  pub remove_all : FilePath → D → D
  pub write : FilePath → String → Action D (Unit {0})
  pub quote : FilePath → String
  pub marshal_secret : String → Outcome String
  pub random_text : String
  -- the network
  pub external_ip : Outcome String
  pub parse_ipv6 : List ℕ → Option Ip
  -- the SDK
  pub initialize_node_validator_files : NodeConfig → Action D (String × Pk)
  pub genesis_file : NodeConfig → FilePath
  pub new_keyring : String → FilePath → Action D Kr
  pub new_signing_algo : String → Kr → Outcome String
  pub generate_save_coin_key : Kr → String → String → Action D (String × String)
  pub address_string : String → String
  pub val_address_string : String → Outcome String
  pub tokens_from_consensus_power : ℕ → ℕ
  pub default_bond_denom : String
  pub sort_coins : List (String × ℕ) → List (String × ℕ)
  pub create_validator : String → Pk → String × ℕ → String → Outcome B
  pub sign : String → String → Kr → String → B → Outcome B
  pub tx_json : B → Outcome String
  pub write_app_toml : FilePath → AppConfig → Action D (Unit {0})
