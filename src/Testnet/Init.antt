-- ===== src/Testnet/Init.antt =====
-- `initTestnetFiles` of cmd/vectord/testnet.go up to the end of its loop over the nodes. The slices
-- that the loop fills by index are lists to which a node adds at the end.
use vector_chain.Prelude.{
  ℕ, zero, suc, ◌+◌, String, text_append, true, false, List, [], ◌∷◌, ◌++◌, if◌then◌else◌, decimal,
  Outcome, ok, fail, error, panic, fatal,
}
use vector_chain.Prelude.Actions.{Action, ◌>>=◌, ◌>>◌, pure, lift}
use vector_chain.Testnet.Address.{get_ip}
use vector_chain.Testnet.Config.{
  FilePath, InitArgs, NodeConfig, AppConfig, api, grpc, p2p, port_of, node_dir_name, node_dir,
  gentxs_dir, tcp_any, node_memo, Balance, Env,
}

-- What the loop has gathered.
pub record Nodes (Pk : Type 0) : Type 0 where
  pub node_ids : List String
  pub val_pub_keys : List Pk
  pub gen_accounts : List String
  pub gen_balances : List Balance
  pub gen_files : List FilePath
  pub node_config : NodeConfig
  pub app_config : AppConfig

-- The configuration of the node at the top of the loop.
unfoldable pub configure_node : InitArgs → ℕ → NodeConfig → NodeConfig
unfolding node_dir node_dir_name
configure_node args i config =
    let config' =
      if args.single_machine
      then record config {
        addr_book_strict = false;
        pex_reactor = false;
        allow_duplicate_ip = true;
      }
      else config in
    record config' {
      root = node_dir args i;
      moniker = node_dir_name args.node_dir_prefix i;
      rpc_listen_address = "tcp://0.0.0.0:26657";
    }

unfoldable pub configure_app : InitArgs → ℕ → AppConfig → AppConfig
unfolding port_of
configure_app args i config = record config {
  api_address = tcp_any (port_of api args.single_machine i);
  grpc_address = text_append "0.0.0.0:" (decimal (port_of grpc args.single_machine i));
  grpc_web_enable = true;
}

module _ {D Kr Pk B : Type 0} (env : Env D Kr Pk B) where
  -- `if err != nil { _ = os.RemoveAll(args.outputDir); return err }`
  abbrev pub removed : {A : Type 0} → InitArgs → Outcome A × D → Outcome A × D
  removed args (ok a, d) = (ok a, d)
  removed args (fail (error e), d) = (fail (error e), env.remove_all (args.output_dir ∷ []) d)
  removed args (fail (panic e), d) = (fail (panic e), d)
  removed args (fail (fatal e), d) = (fail (fatal e), d)

  unfoldable pub or_remove : {A : Type 0} → InitArgs → Action D A → Action D A
  or_remove args m d = removed args (m d)

  abbrev pub or_mkdir_error : FilePath → Outcome (Unit {0}) × D → Outcome (Unit {0}) × D
  or_mkdir_error dir (fail (error e), d) = (
    fail (
        error (
          text_append "could not create directory "
            (text_append (env.quote dir) (text_append ": " e)))),
    d,
  )
  or_mkdir_error dir r = r

  unfoldable pub write_file : String → FilePath → String → Action D (Unit {0})
  write_file name dir contents =
      (λ d. or_mkdir_error dir (env.mkdir_all dir d)) >> env.write (dir ++ name ∷ []) contents

  -- The first part of the body: directories, address, node key, account key.
  unfoldable pub create_node :
      InitArgs → ℕ → NodeConfig → Action D (String × Pk × String × Kr × (String × String))
  unfolding or_remove
  create_node args i config = do
    or_remove args (env.mkdir_all (node_dir args i ++ "config" ∷ []))
    ip ← or_remove args (lift (get_ip env.parse_ipv6 env.external_ip i args.starting_ip_address))
    node ← or_remove args (env.initialize_node_validator_files config)
    let memo = node_memo node.0 ip (port_of p2p args.single_machine i)
    kb ← env.new_keyring args.keyring_backend (node_dir args i)
    algo ← lift (env.new_signing_algo args.algo kb)
    key ← or_remove args (env.generate_save_coin_key kb (node_dir_name args.node_dir_prefix i) algo)
    pure (node.0, node.1, memo, kb, key)

  abbrev pub genesis_coins : List (String × ℕ)
  genesis_coins = env.sort_coins (
      ("testtoken", env.tokens_from_consensus_power 1000)
      ∷ (env.default_bond_denom, env.tokens_from_consensus_power 500)
      ∷ [])

  -- The second part: the seed, the genesis account, the signed creation of the validator, app.toml.
  unfoldable pub write_node :
      InitArgs → ℕ → AppConfig → String × Pk × String × Kr × (String × String) → Action D (Unit {0})
  unfolding write_file
  write_node args i config (node_id, pub_key, memo, kb, (addr, secret)) = do
    cli_print ← lift (env.marshal_secret secret)
    write_file "key_seed.json" (node_dir args i) cli_print
    val_str ← lift (env.val_address_string addr)
    tx_builder ← lift (
        env.create_validator val_str pub_key
          (env.default_bond_denom, env.tokens_from_consensus_power 100)
          (node_dir_name args.node_dir_prefix i))
    signed ← lift (env.sign args.chain_id memo kb (node_dir_name args.node_dir_prefix i) tx_builder)
    tx_bz ← lift (env.tx_json signed)
    write_file (text_append (node_dir_name args.node_dir_prefix i) ".json") (gentxs_dir args) tx_bz
    env.write_app_toml (node_dir args i ++ "config" ∷ "app.toml" ∷ []) config

  -- The slices with what node i adds to them.
  unfoldable pub add_node :
      InitArgs → ℕ → Nodes Pk → String × Pk × String × Kr × (String × String) → Nodes Pk
  unfolding configure_node configure_app
  add_node args i nodes (node_id, pub_key, memo, kb, (addr, secret)) = record {
    node_ids = nodes.node_ids ++ node_id ∷ [];
    val_pub_keys = nodes.val_pub_keys ++ pub_key ∷ [];
    gen_accounts = nodes.gen_accounts ++ addr ∷ [];
    gen_balances =
        nodes.gen_balances
        ++ record { address = env.address_string addr; coins = genesis_coins } ∷ [];
    gen_files = nodes.gen_files ++ env.genesis_file (configure_node args i nodes.node_config) ∷ [];
    node_config = configure_node args i nodes.node_config;
    app_config = configure_app args i nodes.app_config;
  }

  -- The body of the loop.
  unfoldable pub init_node : InitArgs → ℕ → Nodes Pk → Action D (Nodes Pk)
  unfolding add_node
  init_node args i nodes = do
    node ← create_node args i (configure_node args i nodes.node_config)
    write_node args i (configure_app args i nodes.app_config) node
    pure (add_node args i nodes node)

  -- The loop, with `left` nodes to go before node `i + left`.
  unfoldable pub init_nodes : InitArgs → ℕ → ℕ → Nodes Pk → Action D (Nodes Pk)
  init_nodes args zero i nodes = pure nodes
  init_nodes args (suc left) i nodes = do
    nodes' ← init_node args i nodes
    init_nodes args left (i + 1) nodes'
