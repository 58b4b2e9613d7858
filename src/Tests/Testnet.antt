-- ===== src/Tests/Testnet.antt =====
-- A test network of two nodes on a disk that logs what is done to it.
use vector_chain.Prelude.{
  ℕ, ◌+◌, ◌≡◌, refl, ◌⊎◌, arith, String, str_eq, text_append, true, false, some, List, [], ◌∷◌,
  ◌++◌, if◌then◌else◌, decimal, Outcome, ok, fail, error, ok-injective, ap, sym,
}
use vector_chain.Tests.Disk.{Disk, log, env, args, node_config, app_config}
use vector_chain.Testnet.Address.{get_ip}
use vector_chain.Testnet.Config.{FilePath, InitArgs, Balance, node_dir}
use vector_chain.Testnet.Init.{Nodes, create_node, write_node, init_node, init_nodes}
use vector_chain.Testnet.InitLaws.{IsFilled, init_nodes-IsFilled, KeyRefused, create_node_cleans}
use vector_chain.Testnet.Genesis.{Coins, GenesisEnv, init_gen_files, collect_gen_files}
use vector_chain.Testnet.GenesisLaws.{circulating, save_each, init_gen_files_lem}
use vector_chain.Testnet.CollectLaws.{MakesState}
use vector_chain.Testnet.Run.{with_chain_id, start_nodes, init_testnet_files}
use vector_chain.Testnet.RunLaws.{HasChainId, IsStart, IsLaidOut, init_testnet_files-IsLaidOut}
use vector_chain.Testnet.Start.{
  StartFlags, NetworkConfig, StartEnv, start_args, start_testnet, start_testnet_asks,
}

abbrev empty : Nodes String
empty = record {
  node_ids = [];
  val_pub_keys = [];
  gen_accounts = [];
  gen_balances = [];
  gen_files = [];
  node_config = node_config;
  app_config = app_config;
}

abbrev nodes_of : Outcome (Nodes String) → Nodes String
nodes_of (ok nodes) = nodes
nodes_of (fail x) = empty

abbrev run_of : Outcome (Nodes String) × Disk
run_of = init_nodes env args 2 0 empty []

abbrev made : Nodes String
made = nodes_of run_of.0

init_nodes_run : init_nodes env args 2 0 empty [] ≡ (ok made, run_of.1)
unfolding init_nodes init_node create_node write_node node_dir decimal get_ip
init_nodes_run = refl

init_nodes-IsFilled_example : IsFilled env (0 + 2) made
init_nodes-IsFilled_example =
    init_nodes-IsFilled env args 2 0 0 empty [] init_nodes_run (record {
      ids = refl;
      keys = refl;
      accounts = refl;
      files = refl;
      balances = refl;
      coins = tt;
    })

-- With no starting address, the external address is asked for, and there is none.
abbrev unreachable : InitArgs
unreachable = record args { starting_ip_address = "" }

abbrev left_disk : Disk
left_disk = ("remove", "out" ∷ []) ∷ ("mkdir", "out" ∷ "node0" ∷ "vectord" ∷ "config" ∷ []) ∷ []

create_node_run :
    create_node env unreachable 0 node_config [] ≡ (fail (error "no external address"), left_disk)
unfolding create_node node_dir decimal get_ip
create_node_run = refl

create_node_cleans_example :
    ((d₁ : Disk) × (left_disk ≡ env.remove_all ("out" ∷ []) d₁))
    ⊎ KeyRefused env unreachable 0 node_config [] "no external address" left_disk
create_node_cleans_example = create_node_cleans env unreachable 0 node_config [] create_node_run

abbrev amount_of : Coins → String → ℕ
amount_of [] denom = 0
amount_of ((d, n) ∷ coins) denom = (if str_eq d denom then n else 0) + amount_of coins denom

amount_of-append :
    (a b : Coins) (denom : String)
    → amount_of (a ++ b) denom ≡ amount_of a denom + amount_of b denom
amount_of-append [] b denom = omega arith
amount_of-append ((d, n) ∷ a) b denom = omega (arith, amount_of-append a b denom)

-- An application genesis is its JSON; the state of a node is its identifier.
abbrev genesis_env : GenesisEnv Disk String String String ℕ
genesis_env = record {
  pack_accounts = λ accounts. ok accounts;
  sanitize_genesis_balances = λ balances. balances;
  default_supply = [];
  add_coins = λ a b. a ++ b;
  marshal_genesis = λ accounts balances supply. ok "genesis";
  new_app_genesis = λ chain_id json. json;
  save_as = λ genesis path. log "save" path;
  genesis_file = λ config. config.root ++ "genesis.json" ∷ [];
  now = 0;
  app_genesis_from_file = λ path d. (ok "genesis", d);
  gen_app_state_from_config = λ config chain_id dir id pk genesis d. (ok (some id, config), d);
  export_genesis_file_with_time = λ path chain_id state now. log "export" path;
}

abbrev balances : List Balance
balances =
    record { address = "a"; coins = ("stake", 500) ∷ [] }
    ∷ record { address = "b"; coins = ("stake", 500) ∷ [] }
    ∷ []

abbrev files : List FilePath
files = ("f0" ∷ []) ∷ ("f1" ∷ []) ∷ []

abbrev saved : Disk
saved = ("save", "f1" ∷ []) ∷ ("save", "f0" ∷ []) ∷ []

init_gen_files_run :
    init_gen_files genesis_env "vector" ("a" ∷ "b" ∷ []) balances files 2 [] ≡ (ok tt, saved)
unfolding init_gen_files
init_gen_files_run = refl

init_gen_files_lem_example :
    (accounts : List String) × (supply : Coins) × (json : String) × (genesis_env.marshal_genesis
        accounts
        (genesis_env.sanitize_genesis_balances balances)
        supply
      ≡ ok json)
    × ((denom : String)
        → amount_of supply denom
          ≡ circulating genesis_env amount_of denom genesis_env.default_supply
              (genesis_env.sanitize_genesis_balances balances))
    × (save_each genesis_env (genesis_env.new_app_genesis "vector" json) files [] ≡ (ok tt, saved))
init_gen_files_lem_example =
    init_gen_files_lem genesis_env amount_of amount_of-append "vector" ("a" ∷ "b" ∷ []) balances
      files [] saved init_gen_files_run

makes_state : MakesState genesis_env
makes_state config chain_id dir node_id pub_key genesis d result d' e =
    (node_id, sym (ap (λ p. p.0) (ok-injective (ap (λ r. r.0) e))))

abbrev pairs : List (String × String)
pairs = ("id0", "pk0") ∷ ("id1", "pk1") ∷ []

abbrev flags : StartFlags
flags = record {
  output_dir = "out";
  chain_id = "";
  min_gas_prices = "";
  num_validators = 4;
  key_type = "secp256k1";
  enable_logging = false;
  rpc_address = "tcp://0.0.0.0:26657";
  api_address = "tcp://0.0.0.0:1317";
  grpc_address = "0.0.0.0:9090";
  print_mnemonic = true;
}

abbrev pub default_network : NetworkConfig
default_network = record {
  chain_id = "chain-1";
  signing_algo = "secp256k1";
  min_gas_prices = "";
  num_validators = 4;
  enable_logging = false;
  rpc_address = "";
  api_address = "";
  grpc_address = "";
  print_mnemonic = false;
  timeout_commit = 2000000000;
}

-- A network is the timeout that it was started with.
abbrev pub start_env : StartEnv ℕ
start_env = record {
  default_config = default_network;
  stat_says_absent = λ dir. true;
  new_network = λ dir config. ok config.timeout_commit;
  wait_for_height = λ height n. ok height;
  scanln = ok tt;
}

start_testnet_run : start_testnet start_env (start_args flags) ≡ ok 0
unfolding start_testnet start_args
start_testnet_run = refl

start_testnet_asks_applied :
    (config : NetworkConfig) × (dir : String) × (start_env.stat_says_absent dir ≡ true)
    × (start_env.new_network dir config ≡ ok 0)
    × (dir ≡ text_append flags.output_dir (text_append "/" config.chain_id))
    × (config.chain_id
        ≡ (if str_eq flags.chain_id "" then default_network.chain_id else flags.chain_id))
    × (config.num_validators ≡ 4)
    × (config.signing_algo ≡ flags.key_type)
    × (config.timeout_commit ≡ 0)
start_testnet_asks_applied = start_testnet_asks start_env flags start_testnet_run

abbrev whole_run : Outcome (Unit {0}) × Disk
whole_run = init_testnet_files env genesis_env args node_config app_config []

whole_run_ok :
    init_testnet_files env genesis_env args node_config app_config [] ≡ (ok tt, whole_run.1)
unfolding init_testnet_files init_nodes init_node create_node write_node node_dir decimal get_ip
    init_gen_files collect_gen_files with_chain_id start_nodes
whole_run_ok = refl

init_testnet_files-IsLaidOut_example :
    (args' : InitArgs) × (start : Nodes String) × (nodes : Nodes String) × HasChainId env
      genesis_env args args'
    × IsStart env genesis_env args' node_config app_config start
    × IsLaidOut env genesis_env args' start nodes [] whole_run.1
init_testnet_files-IsLaidOut_example =
    init_testnet_files-IsLaidOut env genesis_env makes_state args node_config app_config []
      whole_run.1 whole_run_ok
