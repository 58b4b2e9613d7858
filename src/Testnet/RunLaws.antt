-- ===== src/Testnet/RunLaws.antt =====
-- What the whole of `initTestnetFiles` of cmd/vectord/testnet.go has done when it returns no error.
use vector_chain.Prelude.{
  suc, ◌+◌, ◌≡◌, ◌≢◌, ◌⊎◌, inl, inr, ◌↔◌, Bool, true, false, false_is_true, if◌then◌else◌, str_eq,
  eq_iff, text_append, refl, sym, ap, ◌∙◌, subst, arith, String, List, [], ◌∷◌, length, map, ok,
}
use vector_chain.Prelude.Actions.{◌>>=◌, bind-ok}
use vector_chain.Testnet.Config.{InitArgs, NodeConfig, AppConfig, Env}
use vector_chain.Testnet.Init.{Nodes, init_nodes}
use vector_chain.Testnet.InitLaws.{IsFilled, init_nodes-IsFilled}
use vector_chain.Testnet.Genesis.{GenesisEnv, init_gen_files, collect_gen_files}
use vector_chain.Testnet.GenesisLaws.{save_each, init_gen_files_lem}
use vector_chain.Testnet.CollectLaws.{share_first, MakesState, collect_gen_files_lem}
use vector_chain.Testnet.Run.{with_chain_id, start_app_config, start_nodes, init_testnet_files}

-- Two lists of one length are those of a list of pairs.
pairs_of :
    {A B : Type 0} (xs : List A) (ys : List B)
    → length xs ≡ length ys
    → (ps : List (A × B)) × (map (λ p. p.0) ps ≡ xs)
      × (map (λ p. p.1) ps ≡ ys)
      × (length ps ≡ length xs)
pairs_of [] [] e = ([], refl, refl, refl)
pairs_of [] (y ∷ ys) e = absurd (omega (arith, e))
pairs_of (x ∷ xs) [] e = absurd (omega (arith, e))
pairs_of (x ∷ xs) (y ∷ ys) e =
    let (ps, f, g, n) = pairs_of xs ys (omega (arith, e)) in
    ((x, y) ∷ ps, ap (λ l. x ∷ l) f, ap (λ l. y ∷ l) g, ap suc n)

module _ {D Kr Pk B Acc G T : Type 0} (env : Env D Kr Pk B) (genv : GenesisEnv D Pk Acc G T) where
  -- What has been done to the disk, between `d` and `d'`, for the nodes of the arguments `args`: the
  -- loop over the nodes came to its end with an entry for each of them, one genesis was saved to the
  -- genesis file of each, and the state made for the first was written to those of all.
  pub record IsLaidOut (args : InitArgs) (start nodes : Nodes Pk) (d d' : D) : Type 0 where
    pub filled : IsFilled env args.num_validators nodes
    pub pairs : List (String × Pk)
    pub ids : map (λ p. p.0) pairs ≡ nodes.node_ids
    pub keys : map (λ p. p.1) pairs ≡ nodes.val_pub_keys
    pub looped : D
    pub saved : D
    pub json : String
    pub loop : init_nodes env args args.num_validators 0 start d ≡ (ok nodes, looped)
    pub save :
        save_each genv (genv.new_app_genesis args.chain_id json) nodes.gen_files looped
        ≡ (ok tt, saved)
    pub share : share_first genv args pairs nodes.node_config saved ≡ (ok tt, d')

  -- The arguments with the chain-id that was given; or, if it was empty, with a random one.
  abbrev pub HasChainId : InitArgs → InitArgs → Type 0
  HasChainId args args' =
      ((args.chain_id ≢ "") × (args' ≡ args))
      ⊎ ((args.chain_id ≡ "")
          × (args' ≡ record args { chain_id = text_append "chain-" env.random_text }))

  with_chain_id-HasChainId :
      (args : InitArgs) → HasChainId args (with_chain_id env.random_text args)
  unfolding with_chain_id
  with_chain_id-HasChainId args = go (str_eq args.chain_id "") (eq_iff args.chain_id "")
    where
      go :
          (b : Bool)
          → (b ≡ true) ↔ (args.chain_id ≡ "")
          → HasChainId args (record args {
            chain_id = if b then text_append "chain-" env.random_text else args.chain_id;
          })
      go true e = inr (e.0 refl, refl)
      go false e = inl (λ same. false_is_true (e.1 same), refl)

  -- What the loop starts from: nothing gathered, the configuration of CometBFT that was given, and
  -- that of the application with the API, the telemetry and the chain-id's label.
  pub record IsStart (args : InitArgs) (node_config : NodeConfig) (app_config : AppConfig)
      (start : Nodes Pk) : Type 0 where
    pub no_ids : start.node_ids ≡ []
    pub no_keys : start.val_pub_keys ≡ []
    pub no_accounts : start.gen_accounts ≡ []
    pub no_balances : start.gen_balances ≡ []
    pub no_files : start.gen_files ≡ []
    pub node : start.node_config ≡ node_config
    pub app : start.app_config ≡ record app_config {
      min_gas_prices = args.min_gas_prices;
      api_enable = true;
      telemetry_enabled = true;
      prometheus_retention_time = 60;
      enable_hostname_label = false;
      global_labels = ("chain_id" ∷ args.chain_id ∷ []) ∷ [];
    }

  -- Where the state made for a node is never nil, an initialization that returns no error has laid the
  -- network out with the arguments given, the chain-id among them; or, if the chain-id given is empty,
  -- with a random one in its place. The loop over the nodes starts with nothing gathered.
  pub init_testnet_files-IsLaidOut :
      MakesState genv
      → (args : InitArgs) (node_config : NodeConfig) (app_config : AppConfig) (d d' : D)
      → init_testnet_files env genv args node_config app_config d ≡ (ok tt, d')
      → (args' : InitArgs) × (start : Nodes Pk) × (nodes : Nodes Pk) × HasChainId args args'
        × IsStart args' node_config app_config start
        × IsLaidOut args' start nodes d d'
  unfolding init_testnet_files start_nodes start_app_config
  init_testnet_files-IsLaidOut makes args node_config app_config d d' h =
      let args' = with_chain_id env.random_text args in
      let n = args'.num_validators in
      let start = start_nodes node_config (start_app_config args' app_config) in
      let collect = λ (nodes : Nodes Pk) (u : Unit {0}).
        collect_gen_files genv args' nodes.node_config nodes.node_ids nodes.val_pub_keys in
      let gen = λ (nodes : Nodes Pk).
        init_gen_files genv args'.chain_id nodes.gen_accounts nodes.gen_balances nodes.gen_files
          n in
      let (nodes, d₁, e₁, f₁) =
        bind-ok (init_nodes env args' n 0 start) (λ nodes. gen nodes >>= collect nodes) d h in
      let (_, d₂, e₂, f₂) = bind-ok (gen nodes) (collect nodes) d₁ f₁ in
      let filled = init_nodes-IsFilled env args' n 0 0 start d e₁ (record {
        ids = refl;
        keys = refl;
        accounts = refl;
        files = refl;
        balances = refl;
        coins = tt;
      }) in
      let same : 0 + n ≡ n = omega arith in
      let filled' : IsFilled env n nodes = subst (λ m. IsFilled env m nodes) same filled in
      let (ps, ids, keys, count) =
        pairs_of nodes.node_ids nodes.val_pub_keys (filled'.ids ∙ sym filled'.keys) in
      let (_, _, json, _, _, saved) =
        init_gen_files_lem genv (λ coins denom. 0) (λ a b denom. refl) args'.chain_id
          nodes.gen_accounts nodes.gen_balances nodes.gen_files d₁ d₂
          (subst
            (λ m.
              init_gen_files genv args'.chain_id nodes.gen_accounts nodes.gen_balances
                nodes.gen_files m d₁
              ≡ (ok tt, d₂))
            (sym filled'.files) e₂) in
      let shared =
        collect_gen_files_lem genv makes args' ps nodes.node_config d₂
          (sym filled'.ids ∙ sym count) in
      (
        args',
        start,
        nodes,
        with_chain_id-HasChainId args,
        record {
          no_ids = refl;
          no_keys = refl;
          no_accounts = refl;
          no_balances = refl;
          no_files = refl;
          node = refl;
          app = refl;
        },
        record {
          filled = filled';
          pairs = ps;
          ids = ids;
          keys = keys;
          looped = d₁;
          saved = d₂;
          json = json;
          loop = e₁;
          save = saved;
          share = sym shared ∙ rw (ids, keys) f₂;
        },
      )
