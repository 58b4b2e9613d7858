-- ===== src/Testnet/Genesis.antt =====
-- `initGenFiles` and `collectGenFiles` of cmd/vectord/testnet.go.
use vector_chain.Prelude.{
  ℕ, zero, suc, ◌+◌, String, Option, none, some, List, [], ◌∷◌, get_elem?, Outcome, ok, fail, panic,
}
use vector_chain.Prelude.Actions.{Action, ◌>>=◌, ◌>>◌, pure, lift}
use vector_chain.Testnet.Config.{
  FilePath, InitArgs, NodeConfig, rpc, p2p, port_of, node_dir_name, node_dir, gentxs_dir, tcp_any,
  Balance,
}

abbrev pub Coins : Type 0
Coins = List (String × ℕ)

-- What the two functions call of the SDK: `Acc` is a packed account, `G` an application genesis, `T`
-- a time.
pub record GenesisEnv (D Pk Acc G T : Type 0) : Type 0 where
  pub pack_accounts : List String → Outcome (List Acc)
  pub sanitize_genesis_balances : List Balance → List Balance
  pub default_supply : Coins
  pub add_coins : Coins → Coins → Coins
  -- the default genesis with the accounts, the balances and the supply put in, as JSON
  pub marshal_genesis : List Acc → List Balance → Coins → Outcome String
  pub new_app_genesis : String → String → G
  pub save_as : G → FilePath → Action D (Unit {0})
  pub genesis_file : NodeConfig → FilePath
  pub now : T
  pub app_genesis_from_file : FilePath → Action D G
  -- the state of a node, nil if it is empty, and the configuration with the peers put in
  pub gen_app_state_from_config :
      NodeConfig → String → FilePath → String → Pk → G → Action D (Option String × NodeConfig)
  pub export_genesis_file_with_time : FilePath → String → Option String → T → Action D (Unit {0})

module _ {D Pk Acc G T : Type 0} (env : GenesisEnv D Pk Acc G T) where
  -- `for _, bal := range balances { supply = supply.Add(bal.Coins...) }`
  unfoldable pub add_supply : Coins → List Balance → Coins
  add_supply supply [] = supply
  add_supply supply (bal ∷ bals) = add_supply (env.add_coins supply bal.coins) bals

  -- An index out of range panics.
  abbrev pub index : {A : Type 0} → List A → ℕ → Outcome A
  index l i = elim (get_elem? l i) [ none ↦ fail (panic "index out of range") | some a ↦ ok a ]

  -- The loop that saves, with `left` files to go from number i.
  unfoldable pub save_genesis : G → List FilePath → ℕ → ℕ → Action D (Unit {0})
  save_genesis genesis gen_files zero i = pure tt
  save_genesis genesis gen_files (suc left) i = do
    file ← lift (index gen_files i)
    env.save_as genesis file
    save_genesis genesis gen_files left (i + 1)

  unfoldable pub init_gen_files :
      String → List String → List Balance → List FilePath → ℕ → Action D (Unit {0})
  unfolding add_supply save_genesis
  init_gen_files chain_id gen_accounts gen_balances gen_files num_validators = do
    accounts ← lift (env.pack_accounts gen_accounts)
    let balances = env.sanitize_genesis_balances gen_balances
    let supply = add_supply env.default_supply balances
    json ← lift (env.marshal_genesis accounts balances supply)
    save_genesis (env.new_app_genesis chain_id json) gen_files num_validators 0

  -- The configuration of node i at the top of the second loop.
  unfoldable pub collect_config : InitArgs → ℕ → NodeConfig → NodeConfig
  unfolding node_dir node_dir_name port_of
  collect_config args i config = record config {
    root = node_dir args i;
    moniker = node_dir_name args.node_dir_prefix i;
    rpc_listen_address = tcp_any (port_of rpc args.single_machine i);
    p2p_listen_address = tcp_any (port_of p2p args.single_machine i);
  }

  -- `if appState == nil { appState = nodeAppState }`
  abbrev pub canonical : Option String → Option String → Option String
  canonical none node_app_state = node_app_state
  canonical (some state) node_app_state = some state

  -- The loop of `collectGenFiles`, with `left` nodes to go from number i.
  unfoldable pub collect_nodes :
      InitArgs → List String → List Pk → ℕ → ℕ → Option String → NodeConfig → Action D (Unit {0})
  unfolding collect_config
  collect_nodes args node_ids pub_keys zero i app_state config = pure tt
  collect_nodes args node_ids pub_keys (suc left) i app_state config = do
    let config' = collect_config args i config
    node_id ← lift (index node_ids i)
    pub_key ← lift (index pub_keys i)
    genesis ← env.app_genesis_from_file (env.genesis_file config')
    made ←
        env.gen_app_state_from_config config' args.chain_id (gentxs_dir args) node_id pub_key
          genesis
    let app_state' = canonical app_state made.0
    env.export_genesis_file_with_time (env.genesis_file made.1) args.chain_id app_state' env.now
    collect_nodes args node_ids pub_keys left (i + 1) app_state' made.1

  unfoldable pub collect_gen_files :
      InitArgs → NodeConfig → List String → List Pk → Action D (Unit {0})
  unfolding collect_nodes
  collect_gen_files args config node_ids pub_keys =
      collect_nodes args node_ids pub_keys args.num_validators 0 none config
