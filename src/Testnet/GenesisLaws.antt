-- ===== src/Testnet/GenesisLaws.antt =====
-- What `initGenFiles` and `collectGenFiles` of cmd/vectord/testnet.go write, against loops over the
-- nodes' data itself in place of loops over an index.
use vector_chain.Prelude.{
  length-snoc, ℕ, ◌+◌, ◌≡◌, refl, String, none, some, List, [], ◌∷◌, ◌++◌, length, get_elem?, ok,
  fail, panic, arith, sym, ap, ◌∙◌,
}
use mathlib.Core.List.{append_assoc}
use vector_chain.Testnet.Config.{FilePath, Balance}
use vector_chain.Testnet.Genesis.{
  Coins, GenesisEnv, add_supply, index, save_genesis, init_gen_files,
}
use vector_chain.Prelude.Actions.{bind-ok, bind-cong, Action, ◌>>=◌, ◌>>◌, pure, lift}

get_elem?-length :
    {A : Type 0} (before : List A) (a : A) (after : List A)
    → get_elem? (before ++ a ∷ after) (length before) ≡ some a
get_elem?-length [] a after = refl
get_elem?-length (b ∷ before) a after = get_elem?-length before a after

module _ {D Pk Acc G T : Type 0} (env : GenesisEnv D Pk Acc G T) where
  -- What is in circulation of a denomination: what stands in the default supply and in the balances.
  unfoldable pub circulating : (Coins → String → ℕ) → String → Coins → List Balance → ℕ
  circulating amount_of denom supply [] = amount_of supply denom
  circulating amount_of denom supply (bal ∷ bals) =
      amount_of bal.coins denom + circulating amount_of denom supply bals

  circulating-add :
      (amount_of : Coins → String → ℕ)
      → ((a b : Coins) (denom : String)
          → amount_of (env.add_coins a b) denom ≡ amount_of a denom + amount_of b denom)
      → (denom : String) (supply more : Coins) (bals : List Balance)
      → circulating amount_of denom (env.add_coins supply more) bals
        ≡ amount_of more denom + circulating amount_of denom supply bals
  unfolding circulating
  circulating-add amount_of add denom supply more [] = omega (arith, add supply more denom)
  circulating-add amount_of add denom supply more (bal ∷ bals) =
      omega (arith, circulating-add amount_of add denom supply more bals)

  amount_of-add_supply :
      (amount_of : Coins → String → ℕ)
      → ((a b : Coins) (denom : String)
          → amount_of (env.add_coins a b) denom ≡ amount_of a denom + amount_of b denom)
      → (denom : String) (supply : Coins) (bals : List Balance)
      → amount_of (add_supply env supply bals) denom ≡ circulating amount_of denom supply bals
  unfolding add_supply circulating
  amount_of-add_supply amount_of add denom supply [] = refl
  amount_of-add_supply amount_of add denom supply (bal ∷ bals) =
      amount_of-add_supply amount_of add denom (env.add_coins supply bal.coins) bals
      ∙ circulating-add amount_of add denom supply bal.coins bals

  -- Saves to each file in turn.
  unfoldable pub save_each : G → List FilePath → Action D (Unit {0})
  save_each genesis [] = pure tt
  save_each genesis (file ∷ files) = env.save_as genesis file >> save_each genesis files

  pub next_prefix :
      {A : Type 0} (l before : List A) (a : A) (after : List A)
      → l ≡ before ++ a ∷ after
      → l ≡ (before ++ a ∷ []) ++ after
  next_prefix l before a after e = e ∙ sym (append_assoc before (a ∷ []) after)

  pub index-at :
      {A : Type 0} (l before : List A) (a : A) (after : List A) (i : ℕ)
      → l ≡ before ++ a ∷ after
      → i ≡ length before
      → index env l i ≡ ok a
  index-at {A} l before a after i e n =
      let found : get_elem? l i ≡ some a = rw (e, n) (get_elem?-length before a after) in
      ap (λ o. elim o [ none ↦ fail (panic "index out of range") | some b ↦ ok b ]) found

  save_genesis-each :
      (genesis : G) (gen_files before files : List FilePath) (i : ℕ) (d : D)
      → gen_files ≡ before ++ files
      → i ≡ length before
      → save_genesis env genesis gen_files (length files) i d ≡ save_each genesis files d
  unfolding save_genesis save_each
  save_genesis-each genesis gen_files before [] i d e n = refl
  save_genesis-each genesis gen_files before (file ∷ files) i d e n =
      let step : i + 1 ≡ length (before ++ file ∷ []) = omega (arith, length-snoc before file, n) in
      rw (index-at gen_files before file files i e n) (
        bind-cong (env.save_as genesis file)
          (λ _. save_genesis env genesis gen_files (length files) (i + 1))
          (λ _. save_each genesis files) d
          λ _ d₁ _.
            save_genesis-each genesis gen_files (before ++ file ∷ []) files (i + 1) d₁
              (next_prefix gen_files before file files e) step)

  -- With a file for each validator, `initGenFiles`, when it returns no error, has saved one genesis to
  -- each of the files in turn and to no other, and the supply in that genesis has of each denomination
  -- what the default supply and the sanitized balances have of it, for any measure of coins under which
  -- their addition adds.
  pub init_gen_files_lem :
      (amount_of : Coins → String → ℕ)
      → ((a b : Coins) (denom : String)
          → amount_of (env.add_coins a b) denom ≡ amount_of a denom + amount_of b denom)
      → (chain_id : String) (gen_accounts : List String) (gen_balances : List Balance)
        (gen_files : List FilePath) (d d' : D)
      → init_gen_files env chain_id gen_accounts gen_balances gen_files (length gen_files) d
        ≡ (ok tt, d')
      → (accounts : List Acc) × (supply : Coins) × (json : String) × (env.marshal_genesis accounts
            (env.sanitize_genesis_balances gen_balances)
            supply
          ≡ ok json)
        × ((denom : String)
            → amount_of supply denom
              ≡ circulating amount_of denom env.default_supply
                  (env.sanitize_genesis_balances gen_balances))
        × (save_each (env.new_app_genesis chain_id json) gen_files d ≡ (ok tt, d'))
  unfolding init_gen_files
  init_gen_files_lem amount_of add chain_id gen_accounts gen_balances gen_files d d' h =
      let balances = env.sanitize_genesis_balances gen_balances in
      let supply = add_supply env env.default_supply balances in
      let save = λ (json : String).
        save_genesis env (env.new_app_genesis chain_id json) gen_files (length gen_files) 0 in
      let marshal = λ (accounts : List Acc).
        lift {D = D} (env.marshal_genesis accounts balances supply) >>= save in
      let (accounts, d₁, e, f) =
        bind-ok (lift {D = D} (env.pack_accounts gen_accounts)) marshal d h in
      let (json, d₂, e', f') =
        bind-ok (lift {D = D} (env.marshal_genesis accounts balances supply)) save d₁ f in
      let same : d ≡ d₂ = ap (λ r. r.1) e ∙ ap (λ r. r.1) e' in
      (
        accounts,
        supply,
        json,
        ap (λ r. r.0) e',
        λ denom. amount_of-add_supply amount_of add denom env.default_supply balances,
        rw same (
            sym (
              save_genesis-each (env.new_app_genesis chain_id json) gen_files [] gen_files 0 d₂ refl
                refl)
            ∙ f'),
      )
