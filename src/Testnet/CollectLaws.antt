-- ===== src/Testnet/CollectLaws.antt =====
-- What `collectGenFiles` of cmd/vectord/testnet.go writes, against a loop over the nodes themselves
-- that carries the state of the first of them along.
use vector_chain.Prelude.{
  length-snoc, ℕ, ◌+◌, ◌≡◌, refl, String, Option, none, some, List, [], ◌∷◌, ◌++◌, length, ok,
  arith, map,
}
use vector_chain.Prelude.Actions.{bind-cong, Action, ◌>>=◌, ◌>>◌, pure}
use vector_chain.Testnet.Config.{FilePath, InitArgs, NodeConfig, gentxs_dir}
use vector_chain.Testnet.Genesis.{GenesisEnv, collect_config, collect_nodes, collect_gen_files}
use vector_chain.Testnet.GenesisLaws.{index-at, next_prefix}

module _ {D Pk Acc G T : Type 0} (env : GenesisEnv D Pk Acc G T) where
  -- Writes the one state `state` to the genesis file of every node.
  unfoldable pub share_state :
      InitArgs → String → ℕ → List (String × Pk) → NodeConfig → Action D (Unit {0})
  share_state args state i [] config = pure tt
  share_state args state i ((node_id, pub_key) ∷ nodes) config = do
    let config' = collect_config env args i config
    genesis ← env.app_genesis_from_file (env.genesis_file config')
    made ←
        env.gen_app_state_from_config config' args.chain_id (gentxs_dir args) node_id pub_key
          genesis
    env.export_genesis_file_with_time (env.genesis_file made.1) args.chain_id (some state) env.now
    share_state args state (i + 1) nodes made.1

  -- The rest of the second loop, once there is a state, when `nodes` are to go.
  collect_nodes-share :
      (args : InitArgs) (state : String) (node_ids : List String) (pub_keys : List Pk)
      (ids : List String) (keys : List Pk) (nodes : List (String × Pk)) (i : ℕ)
      (config : NodeConfig) (d : D)
      → node_ids ≡ ids ++ map (λ n. n.0) nodes
      → pub_keys ≡ keys ++ map (λ n. n.1) nodes
      → i ≡ length ids
      → i ≡ length keys
      → collect_nodes env args node_ids pub_keys (length nodes) i (some state) config d
        ≡ share_state args state i nodes config d
  unfolding collect_nodes share_state
  collect_nodes-share args state node_ids pub_keys ids keys [] i config d e e' n n' = refl
  collect_nodes-share args state node_ids pub_keys ids keys (node ∷ nodes) i config d e e' n n' =
      let step : i + 1 ≡ length (ids ++ node.0 ∷ []) = omega (arith, length-snoc ids node.0, n) in
      let step' : i + 1 ≡ length (keys ++ node.1 ∷ []) =
        omega (arith, length-snoc keys node.1, n') in
      let config' = collect_config env args i config in
      let write = λ (made : Option String × NodeConfig).
        env.export_genesis_file_with_time (env.genesis_file made.1) args.chain_id (some state)
          env.now in
      let after = λ (made : Option String × NodeConfig).
        collect_nodes env args node_ids pub_keys (length nodes) (i + 1) (some state) made.1 in
      let after' =
        λ (made : Option String × NodeConfig). share_state args state (i + 1) nodes made.1 in
      let make = λ (genesis : G).
        env.gen_app_state_from_config config' args.chain_id (gentxs_dir args) node.0 node.1
          genesis in
      rw
        (
          index-at env node_ids ids node.0 (map (λ n. n.0) nodes) i e n,
          index-at env pub_keys keys node.1 (map (λ n. n.1) nodes) i e' n',
        )
        (bind-cong (env.app_genesis_from_file (env.genesis_file config'))
          (λ genesis. make genesis >>= λ made. write made >> after made)
          (λ genesis. make genesis >>= λ made. write made >> after' made) d
          λ genesis d₁ _.
            bind-cong (make genesis) (λ made. write made >> after made)
              (λ made. write made >> after' made) d₁
              λ made d₂ _.
                bind-cong (write made) (λ _. after made) (λ _. after' made) d₂
                  λ _ d₃ _.
                    collect_nodes-share args state node_ids pub_keys (ids ++ node.0 ∷ [])
                      (keys ++ node.1 ∷ []) nodes (i + 1) made.1 d₃
                      (next_prefix env node_ids ids node.0 _ e)
                      (next_prefix env pub_keys keys node.1 _ e') step step')

  -- Takes the state of the first node and writes it to the genesis files of all.
  unfoldable pub share_first : InitArgs → List (String × Pk) → NodeConfig → Action D (Unit {0})
  share_first args [] config = pure tt
  share_first args ((node_id, pub_key) ∷ nodes) config = do
    let config' = collect_config env args 0 config
    genesis ← env.app_genesis_from_file (env.genesis_file config')
    made ←
        env.gen_app_state_from_config config' args.chain_id (gentxs_dir args) node_id pub_key
          genesis
    elim made.0 [
      | none ↦ pure tt
      | some state ↦
          env.export_genesis_file_with_time (env.genesis_file made.1) args.chain_id (some state)
            env.now
          >> share_state args state 1 nodes made.1
    ]

  -- The state that is made for a node is not nil.
  abbrev pub MakesState : Type 0
  MakesState =
      (config : NodeConfig) (chain_id : String) (dir : FilePath) (node_id : String) (pub_key : Pk)
      (genesis : G) (d : D) (made : Option String × NodeConfig) (d' : D)
      → env.gen_app_state_from_config config chain_id dir node_id pub_key genesis d ≡ (ok made, d')
      → (state : String) × (made.0 ≡ some state)

  pub collect_gen_files_lem :
      MakesState
      → (args : InitArgs) (nodes : List (String × Pk)) (config : NodeConfig) (d : D)
      → args.num_validators ≡ length nodes
      → collect_gen_files env args config (map (λ n. n.0) nodes) (map (λ n. n.1) nodes) d
        ≡ share_first args nodes config d
  unfolding collect_gen_files collect_nodes share_first
  collect_gen_files_lem makes args [] config d n = rw n refl
  collect_gen_files_lem makes args (node ∷ nodes) config d n =
      let node_ids = map (λ n. n.0) (node ∷ nodes) in
      let pub_keys = map (λ n. n.1) (node ∷ nodes) in
      let config' = collect_config env args 0 config in
      let make = λ (genesis : G).
        env.gen_app_state_from_config config' args.chain_id (gentxs_dir args) node.0 node.1
          genesis in
      let write = λ (made : Option String × NodeConfig) (state : Option String).
        env.export_genesis_file_with_time (env.genesis_file made.1) args.chain_id state env.now in
      let loop = λ (made : Option String × NodeConfig).
        write made made.0
        >> collect_nodes env args node_ids pub_keys (length nodes) 1 made.0 made.1 in
      let share : Option String × NodeConfig → Action D (Unit {0}) = λ made. elim made.0 [
        | none ↦ pure tt
        | some state ↦ write made (some state) >> share_state args state 1 nodes made.1
      ] in
      rw n (
        bind-cong (env.app_genesis_from_file (env.genesis_file config'))
          (λ genesis. make genesis >>= loop) (λ genesis. make genesis >>= share) d
          λ genesis d₁ _. bind-cong (make genesis) loop share d₁ λ made d₂ made_e.
            let (state, is_some) =
              makes config' args.chain_id (gentxs_dir args) node.0 node.1 genesis d₁ made d₂
                made_e in
            rw is_some (
              bind-cong (write made (some state))
                (λ _. collect_nodes env args node_ids pub_keys (length nodes) 1 (some state) made.1)
                (λ _. share_state args state 1 nodes made.1) d₂
                λ _ d₃ _.
                  collect_nodes-share args state node_ids pub_keys (node.0 ∷ []) (node.1 ∷ []) nodes
                    1 made.1 d₃ refl refl refl refl))
