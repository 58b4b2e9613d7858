-- ===== src/Testnet/InitLaws.antt =====
-- What the loop of `initTestnetFiles` in cmd/vectord/testnet.go gathers, and what it leaves on the disk
-- when it fails.
use vector_chain.Prelude.{
  length-snoc, ℕ, zero, suc, ◌+◌, ◌≡◌, refl, ◌⊎◌, inl, inr, String, List, [], ◌∷◌, ◌++◌, length,
  All, All-append, Outcome, ok, fail, error, panic, fatal, ok-injective, arith, sym, ap, ◌∙◌, subst,
}
use native.Mathlib.Nat.{add-zero}
use vector_chain.Prelude.Actions.{bind-ok, bind-fail, Action, ◌>>=◌, pure, lift}
use vector_chain.Testnet.Address.{get_ip}
use vector_chain.Testnet.Config.{
  InitArgs, NodeConfig, p2p, port_of, node_dir_name, node_dir, node_memo, Env,
}
use vector_chain.Testnet.Init.{
  Nodes, removed, or_remove, configure_node, configure_app, create_node, write_node, genesis_coins,
  add_node, init_node, init_nodes,
}

module _ {D Kr Pk B : Type 0} (env : Env D Kr Pk B) where
  -- What the loop has gathered after `n` nodes: one entry in each slice for each node, and a genesis
  -- balance of the same coins for each.
  pub record IsFilled (n : ℕ) (nodes : Nodes Pk) : Type 0 where
    pub ids : length nodes.node_ids ≡ n
    pub keys : length nodes.val_pub_keys ≡ n
    pub accounts : length nodes.gen_accounts ≡ n
    pub files : length nodes.gen_files ≡ n
    pub balances : length nodes.gen_balances ≡ n
    pub coins : All (λ b. b.coins ≡ genesis_coins env) nodes.gen_balances

  regroup : (n left : ℕ) → n + 1 + left ≡ n + suc left
  regroup n left = omega arith

  length-grown :
      {A : Type 0} (l : List A) (a : A) {n : ℕ} → length l ≡ n → length (l ++ a ∷ []) ≡ n + 1
  length-grown l a h = omega (arith, length-snoc l a)

  add_node-IsFilled :
      (args : InitArgs) (i n : ℕ) (nodes : Nodes Pk)
      (node : String × Pk × String × Kr × (String × String))
      → IsFilled n nodes
      → IsFilled (n + 1) (add_node env args i nodes node)
  unfolding add_node
  add_node-IsFilled args i n nodes node h = record {
    ids = length-grown nodes.node_ids node.0 h.ids;
    keys = length-grown nodes.val_pub_keys node.1 h.keys;
    accounts = length-grown nodes.gen_accounts node.4.0 h.accounts;
    files = length-grown nodes.gen_files _ h.files;
    balances = length-grown nodes.gen_balances _ h.balances;
    coins = All-append (λ b. b.coins ≡ genesis_coins env) nodes.gen_balances _ (refl, tt) h.coins;
  }

  init_node-eq-ok :
      (args : InitArgs) (i : ℕ) (nodes : Nodes Pk) (d : D) {nodes' : Nodes Pk} {d' : D}
      → init_node env args i nodes d ≡ (ok nodes', d')
      → (node : String × Pk × String × Kr × (String × String)) × (add_node env args i nodes node
          ≡ nodes')
  unfolding init_node
  init_node-eq-ok args i nodes d e =
      let write = λ (node : String × Pk × String × Kr × (String × String)).
        write_node env args i (configure_app args i nodes.app_config) node in
      let done = λ (node : String × Pk × String × Kr × (String × String)) (u : Unit {0}).
        pure {D = D} (add_node env args i nodes node) in
      let (node, d₁, _, f) =
        bind-ok (create_node env args i (configure_node args i nodes.node_config))
          (λ node. write node >>= done node) d e in
      let (_, _, _, g) = bind-ok (write node) (done node) d₁ f in
      (node, ok-injective (ap (λ p. p.0) g))

  init_node-IsFilled :
      (args : InitArgs) (i n : ℕ) (nodes : Nodes Pk) (d : D) {nodes' : Nodes Pk} {d' : D}
      → init_node env args i nodes d ≡ (ok nodes', d')
      → IsFilled n nodes
      → IsFilled (n + 1) nodes'
  init_node-IsFilled args i n nodes d e h =
      let (node, added) = init_node-eq-ok args i nodes d e in
      subst (IsFilled (n + 1)) added (add_node-IsFilled args i n nodes node h)

  -- The loop over the nodes, when it comes to its end, has gathered one node identifier, public key,
  -- account, genesis file and genesis balance for each node, each balance of the same coins.
  pub init_nodes-IsFilled :
      (args : InitArgs) (left i n : ℕ) (nodes : Nodes Pk) (d : D) {nodes' : Nodes Pk} {d' : D}
      → init_nodes env args left i nodes d ≡ (ok nodes', d')
      → IsFilled n nodes
      → IsFilled (n + left) nodes'
  unfolding init_nodes
  init_nodes-IsFilled args zero i n nodes d e h =
      rw add-zero (subst (IsFilled n) (ok-injective (ap (λ p. p.0) e)) h)
  init_nodes-IsFilled args (suc left) i n nodes d e h =
      let (nodes₁, d₁, e₁, f) =
        bind-ok (init_node env args i nodes) (λ nodes₁. init_nodes env args left (i + 1) nodes₁) d
          e in
      let step : n + 1 + left ≡ n + suc left = regroup n left in
      rw step at (
        init_nodes-IsFilled args left (i + 1) (n + 1) nodes₁ d₁ f
          (init_node-IsFilled args i n nodes d e₁ h))

  or_remove-error :
      {A : Type 0} (args : InitArgs) (m : Action D A) (d : D) {x : String} {d' : D}
      → or_remove env args m d ≡ (fail (error x), d')
      → (d₁ : D) × (m d ≡ (fail (error x), d₁)) × (d' ≡ env.remove_all (args.output_dir ∷ []) d₁)
  unfolding or_remove
  or_remove-error {A} args m d {x} {d'} h = go (m d) refl h
    where
      go :
          (r : Outcome A × D)
          → m d ≡ r
          → removed env args r ≡ (fail (error x), d')
          → (d₁ : D) × (m d ≡ (fail (error x), d₁))
            × (d' ≡ env.remove_all (args.output_dir ∷ []) d₁)
      go (ok a, d₁) e h = cc
      go (fail (error y), d₁) e h =
          let same : ◌≡◌ {A = Outcome A × D} (fail (error y), d₁) (fail (error x), d₁) =
            λ i. ((h i).0, d₁) in
          (d₁, e ∙ same, sym (ap (λ r. r.1) h))
      go (fail (panic y), d₁) e h = cc
      go (fail (fatal y), d₁) e h = cc

  or_remove-ok :
      {A : Type 0} (args : InitArgs) (m : Action D A) (d : D) {a : A} {d' : D}
      → or_remove env args m d ≡ (ok a, d')
      → m d ≡ (ok a, d')
  unfolding or_remove
  or_remove-ok {A} args m d {a} {d'} h = go (m d) refl h
    where
      go : (r : Outcome A × D) → m d ≡ r → removed env args r ≡ (ok a, d') → m d ≡ (ok a, d')
      go (ok b, d₁) e h = e ∙ h
      go (fail (error y), d₁) e h = cc
      go (fail (panic y), d₁) e h = cc
      go (fail (fatal y), d₁) e h = cc

  -- From the disk `d`, the keyring of node `i` was refused, or was given and the algorithm refused; the
  -- keyring left the disk `d'`.
  abbrev pub Refusal : InitArgs → ℕ → D → String → D → Type 0
  Refusal args i d x d' =
      (env.new_keyring args.keyring_backend (node_dir args i) d ≡ (fail (error x), d'))
      ⊎ ((kb : Kr) × (env.new_keyring args.keyring_backend (node_dir args i) d ≡ (ok kb, d'))
          × (env.new_signing_algo args.algo kb ≡ fail (error x)))

  -- The run of node `i`, from the disk `d`, has made its directory and its validator files, and was
  -- then refused its keyring, or was given one and refused the algorithm. The disk `d'` is the one that
  -- the keyring left.
  pub record KeyRefused (args : InitArgs) (i : ℕ) (config : NodeConfig) (d : D) (x : String)
      (d' : D) : Type 0 where
    pub made : D
    pub filled : D
    pub node : String × Pk
    pub directory : env.mkdir_all (node_dir args i ++ "config" ∷ []) d ≡ (ok tt, made)
    pub files : env.initialize_node_validator_files config made ≡ (ok node, filled)
    pub refused : Refusal args i filled x d'

  -- Where the first part of the work on a node returns an error, the output directory has been
  -- removed, as the last thing done to the disk; unless the directory and the files of the node were
  -- made, and the keyring or the signing algorithm was refused then, where the disk is left as the
  -- keyring left it.
  pub create_node_cleans :
      (args : InitArgs) (i : ℕ) (config : NodeConfig) (d : D) {x : String} {d' : D}
      → create_node env args i config d ≡ (fail (error x), d')
      → ((d₁ : D) × (d' ≡ env.remove_all (args.output_dir ∷ []) d₁))
        ⊎ KeyRefused args i config d x d'
  unfolding create_node
  create_node_cleans args i config d {x} {d'} h =
      let dir_made = env.mkdir_all (node_dir args i ++ "config" ∷ []) in
      let found_ip =
        lift {D = D} (get_ip env.parse_ipv6 env.external_ip i args.starting_ip_address) in
      let node_made = env.initialize_node_validator_files config in
      let keyring = env.new_keyring args.keyring_backend (node_dir args i) in
      let key_made = λ (kb : Kr) (algo : String).
        env.generate_save_coin_key kb (node_dir_name args.node_dir_prefix i) algo in
      let done = λ (ip : String) (node : String × Pk) (kb : Kr) (key : String × String).
        pure {D = D} {A = String × Pk × String × Kr × (String × String)}
          (node.0, node.1, node_memo node.0 ip (port_of p2p args.single_machine i), kb, key) in
      let from_algo = λ (ip : String) (node : String × Pk) (kb : Kr) (algo : String).
        or_remove env args (key_made kb algo) >>= done ip node kb in
      let from_keyring = λ (ip : String) (node : String × Pk) (kb : Kr).
        lift {D = D} (env.new_signing_algo args.algo kb) >>= from_algo ip node kb in
      let from_node = λ (ip : String) (node : String × Pk). keyring >>= from_keyring ip node in
      let from_ip = λ (ip : String). or_remove env args node_made >>= from_node ip in
      let from_dir = λ (u : Unit {0}). or_remove env args found_ip >>= from_ip in
      elim (bind-fail (or_remove env args dir_made) from_dir d h) [
        | inl e ↦ inl (cleaned dir_made d e)
        | inr (_, d₁, e₁, f₁) ↦ elim (bind-fail (or_remove env args found_ip) from_ip d₁ f₁) [
          | inl e ↦ inl (cleaned found_ip d₁ e)
          | inr (ip, d₂, e₂, f₂) ↦
              elim (bind-fail (or_remove env args node_made) (from_node ip) d₂ f₂) [
                | inl e ↦ inl (cleaned node_made d₂ e)
                | inr (node, d₃, e₃, f₃) ↦
                    let same : d₁ ≡ d₂ = ap (λ r. r.1) (or_remove-ok args found_ip d₁ e₂) in
                    let refused : Refusal args i d₃ x d' → KeyRefused args i config d x d' = λ r.
                      record {
                        made = d₁;
                        filled = d₃;
                        node = node;
                        directory = or_remove-ok args dir_made d e₁;
                        files = ap node_made same ∙ or_remove-ok args node_made d₂ e₃;
                        refused = r;
                      } in
                    elim (bind-fail keyring (from_keyring ip node) d₃ f₃) [
                      | inl e ↦ inr (refused (inl e))
                      | inr (kb, d₄, e₄, f₄) ↦
                          elim (bind-fail (lift (env.new_signing_algo args.algo kb))
                            (from_algo ip node kb) d₄ f₄) [
                              | inl e ↦ inr (
                                  refused (
                                    inr (
                                      kb,
                                      e₄ ∙ ap {B = Outcome Kr × D} (λ r. (ok kb, r.1)) e,
                                      ap (λ r. r.0) e,
                                    )))
                              | inr (algo, d₅, e₅, f₅) ↦
                                  elim (bind-fail (or_remove env args (key_made kb algo))
                                    (done ip node kb) d₅ f₅) [
                                      | inl e ↦ inl (cleaned (key_made kb algo) d₅ e)
                                      | inr (key, d₆, e₆, f₆) ↦ cc
                                    ]
                            ]
                    ]
              ]
        ]
      ]
    where
      cleaned :
          {A : Type 0} (m : Action D A) (d : D) {y : String} {e : D}
          → or_remove env args m d ≡ (fail (error y), e)
          → (d₁ : D) × (e ≡ env.remove_all (args.output_dir ∷ []) d₁)
      cleaned m d h = let (d₁, _, e) = or_remove-error args m d h in (d₁, e)
