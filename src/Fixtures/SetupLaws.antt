-- ===== src/Fixtures/SetupLaws.antt =====
-- What `SetupWithGenesisValSet` of app/test_helpers.go has done with the application that it returns.
use vector_chain.Prelude.{
  ◌∷◌, [], some, ◌++◌, length, ℕ, ◌+◌, ◌*◌, ◌≡◌, refl, ap, ◌∙◌, subst, String, true, Option, List,
  Outcome, ok, or_fatal, or_fatal-eq-ok, ok-injective,
}
use vector_chain.Prelude.Actions.{Action, ◌>>=◌, ◌>>◌, lift, pure, bind-ok}
use vector_chain.App.Modules.{Module, staking, bank}
use vector_chain.Fixtures.Supply.{Measure, balances_of}
use vector_chain.Fixtures.Laws.{total_tokens, Gathered, genesis_state_with_val_set_lem}
use vector_chain.Fixtures.{
  Coins, Validator, Delegation, bonded_balance, Balance, ConsensusValidator, FixtureEnv,
  genesis_state_with_val_set,
}
use vector_chain.Fixtures.Setup.{
  InitChainRequest, FinalizeBlockRequest, SetupEnv, required, with_default, make_app, setup,
  init_request, initialize, first_request, finalize_first, state_bytes_of, start_with,
  setup_with_genesis_val_set,
}

module _ {P K A Acc J App S W Db Store Params V Tx : Type 0} (fix : FixtureEnv P K A Acc J)
    (env : SetupEnv P Acc J App S W Db Store Params V Tx) where
  -- What is documented: `InitChain`, which commits nothing, does not change the height of the last
  -- block.
  pub record HeightLaws : Type 0 where
    pub init_keeps :
        (app : App) (request : InitChainRequest Params) (s s' : S)
        → env.init_chain app request s ≡ (ok tt, s')
        → env.last_block_height app s' ≡ env.last_block_height app s

  -- The application was started with a genesis that has the validator set, under the default
  -- parameters with another limit of gas, and finalized one block, whose height is the initial one.
  pub record IsStarted (chain_id : String) (val_set : List (ConsensusValidator P))
      (gen_accs : List Acc) (balances : List Balance) (app : App) (s' : S) : Type 0 where
    pub g : Module → Option J
    pub before : S
    pub after : S
    pub request : InitChainRequest Params
    pub block : FinalizeBlockRequest
    pub response : V
    pub genesis :
        genesis_state_with_val_set fix (env.default_genesis app) val_set gen_accs balances ≡ ok g
    pub printed : env.marshal_indent g ≡ ok request.app_state_bytes
    pub chain : request.chain_id ≡ chain_id
    pub params :
        request.consensus_params
        ≡ env.default_consensus_params
            (env.set_default_max_gas (100 * env.default_gen_tx_gas) before)
    pub started :
        env.init_chain app request (env.set_default_max_gas (100 * env.default_gen_tx_gas) before)
        ≡ (ok tt, after)
    pub finalized : env.finalize_block app block after ≡ (ok response, s')
    pub first : block.height ≡ request.initial_height
    pub next_validators : block.next_validators_hash ≡ env.val_set_hash val_set

  required-ok :
      {B : Type 0} (m : Action S B) (s : S) {b : B} {s' : S}
      → required fix env m s ≡ (ok b, s')
      → m s ≡ (ok b, s')
  required-ok m s e = λ i. (or_fatal-eq-ok (m s).0 (ap (λ r. r.0) e) i, (e i).1)

  state_bytes-made :
      (genesis_state : Module → Option J) (val_set : List (ConsensusValidator P))
      (gen_accs : List Acc) (balances : List Balance) (s : S) {bytes : String} {s' : S}
      → state_bytes_of fix env genesis_state val_set gen_accs balances s ≡ (ok bytes, s')
      → (g : Module → Option J) × (genesis_state_with_val_set fix genesis_state val_set gen_accs
            balances
          ≡ ok g)
        × (env.marshal_indent g ≡ ok bytes)
  state_bytes-made genesis_state val_set gen_accs balances s e =
      let (g, s₁, e₁, f) =
        bind-ok
          (lift (or_fatal (genesis_state_with_val_set fix genesis_state val_set gen_accs balances)))
          (λ g. lift (or_fatal (env.marshal_indent g))) s e in
      (
        g,
        or_fatal-eq-ok (genesis_state_with_val_set fix genesis_state val_set gen_accs balances)
            (ap (λ r. r.0) e₁),
        or_fatal-eq-ok (env.marshal_indent g) (ap (λ r. r.0) f),
      )

  start_with-IsStarted :
      HeightLaws
      → (chain_id : String) (val_set : List (ConsensusValidator P)) (gen_accs : List Acc)
        (balances : List Balance) (made : App × (Module → Option J)) (s s' : S) (app : App)
      → made.1 ≡ env.default_genesis made.0
      → start_with fix env chain_id val_set gen_accs balances made s ≡ (ok app, s')
      → IsStarted chain_id val_set gen_accs balances app s'
  start_with-IsStarted laws chain_id val_set gen_accs balances (app₀, genesis) s s' app by_default
        e =
      let (bytes, s₁, e₁, f₁) =
        bind-ok (state_bytes_of fix env genesis val_set gen_accs balances)
          (λ bytes. initialize fix env chain_id app₀ bytes >> finalize_first fix env app₀ val_set) s
          e in
      let (_, s₂, e₂, f₂) =
        bind-ok (initialize fix env chain_id app₀ bytes) (λ _. finalize_first fix env app₀ val_set)
          s₁ f₁ in
      let gas = 100 * env.default_gen_tx_gas in
      let s₁' = env.set_default_max_gas gas s₁ in
      let request = init_request fix env chain_id app₀ bytes s₁' in
      let started = required-ok (env.init_chain app₀ request) s₁' e₂ in
      let block = first_request fix env app₀ val_set s₂ in
      let (response, s₃, e₃, f₃) =
        bind-ok (required fix env (env.finalize_block app₀ block)) (λ response. pure app₀) s₂ f₂ in
      let (g, made, printed) = state_bytes-made genesis val_set gen_accs balances s e₁ in
      let same : app₀ ≡ app = ok-injective (ap (λ r. r.0) f₃) in
      subst (λ a. IsStarted chain_id val_set gen_accs balances a s') same
        (record {
          g = g;
          before = s₁;
          after = s₂;
          request = request;
          block = block;
          response = response;
          genesis =
              subst (λ d. genesis_state_with_val_set fix d val_set gen_accs balances ≡ ok g)
                by_default made;
          printed = printed;
          chain = refl;
          params = refl;
          started = started;
          finalized =
              required-ok (env.finalize_block app₀ block) s₂ e₃
              ∙ ap {B = Outcome V × S} (λ r. (ok response, r.1)) f₃;
          first = ap (λ n. n + 1) (laws.init_keeps app₀ request s₁' s₂ started);
          next_validators = refl;
        })

  setup-default :
      (chain_id : String) (inv_check_period : ℕ) (wasm_opts : List W) (s : S)
      {made : App × (Module → Option J)} {s' : S}
      → setup fix env chain_id true inv_check_period wasm_opts s ≡ (ok made, s')
      → made.1 ≡ env.default_genesis made.0
  unfolding setup
  setup-default chain_id inv_check_period wasm_opts s e =
      let (app, s₁, e₁, f) =
        bind-ok (env.test_temp_dir >>= make_app fix env chain_id inv_check_period wasm_opts)
          (λ app. pure (with_default fix env true app)) s e in
      subst (λ m. m.1 ≡ env.default_genesis m.0) (ok-injective (ap (λ r. r.0) f)) refl

  -- The genesis state has one bonded validator of the default power for each of the set, with a
  -- delegation of the first account, the tokens of all of them in the bonded pool, and a supply that
  -- is what all the balances come to.
  unfoldable pub HoldsSet :
      (Coins → String → ℕ)
      → List (ConsensusValidator P)
      → List Acc
      → List Balance
      → (Module → Option J)
      → Type 0
  HoldsSet amount_of val_set gen_accs balances g =
      (bonded : List (Validator A) × List Delegation) × (supply : Coins) × Gathered fix gen_accs
        val_set [] bonded
      × (g staking ≡ some (fix.marshal_staking bonded.0 bonded.1))
      × (g bank
          ≡ some (fix.marshal_bank (balances ++ bonded_balance fix (length val_set) ∷ []) supply))
      × (Balance.coins (bonded_balance fix (length val_set))
          ≡ (fix.default_bond_denom, total_tokens fix bonded.0) ∷ [])
      × ((denom : String)
          → amount_of supply denom
            ≡ balances_of fix amount_of denom balances
              + amount_of (Balance.coins (bonded_balance fix (length val_set))) denom)

  -- Where `SetupWithGenesisValSet` returns an application, that was started with a genesis made of
  -- the default one, under the default parameters, in which the limit of gas was replaced where they
  -- are; and it has finalized one block, whose height is the initial one. For any measure of coins
  -- under which their addition adds, the genesis holds one bonded validator of the default power for
  -- each validator of the set, with a delegation of the first account, the tokens of all of them in
  -- the bonded pool, and a supply that is what the balances and the pool come to.
  pub setup_with_genesis_val_set_lem :
      HeightLaws
      → (amount_of : Coins → String → ℕ) → Measure fix amount_of
      → (val_set : List (ConsensusValidator P)) (gen_accs : List Acc) (chain_id : String)
        (wasm_opts : List W) (balances : List Balance) (s s' : S) (app : App)
      → setup_with_genesis_val_set fix env val_set gen_accs chain_id wasm_opts balances s
        ≡ (ok app, s')
      → (started : IsStarted chain_id val_set gen_accs balances app s') × HoldsSet amount_of val_set
          gen_accs balances started.g
  unfolding setup_with_genesis_val_set HoldsSet
  setup_with_genesis_val_set_lem laws amount_of measure val_set gen_accs chain_id wasm_opts balances
        s s' app e =
      let (made, s₁, e₁, f) =
        bind-ok (setup fix env chain_id true 5 wasm_opts)
          (start_with fix env chain_id val_set gen_accs balances) s e in
      let started =
        start_with-IsStarted laws chain_id val_set gen_accs balances made s₁ s' app
          (setup-default chain_id 5 wasm_opts s e₁) f in
      (
        started,
        genesis_state_with_val_set_lem fix amount_of measure (env.default_genesis app) val_set
            gen_accs balances started.g started.genesis,
      )
