-- ===== src/Fixtures/Supply.antt =====
-- How much is in circulation after the fixtures of app/test_helpers.go.
use vector_chain.Prelude.{
  ℕ, ◌+◌, ◌*◌, arith, String, List, [], ◌∷◌, ◌++◌, length, suc, ok, or_panic, or_panic-eq-ok,
  >>=-eq-ok, ok-injective, ◌≡◌, sym, ap, ◌∙◌,
}
use native.Mathlib.Nat.{suc-mul}
use vector_chain.Fixtures.{
  Coins, Balance, FixtureEnv, total_supply, FundingEnv, init_account_with_coins, fund_each,
  add_test_addrs,
}

module _ {P K A Acc J : Type 0} (env : FixtureEnv P K A Acc J) where
  -- A measure of coins under which their addition adds, and no coins are none.
  pub record Measure (amount_of : Coins → String → ℕ) : Type 0 where
    pub add :
        (a b : Coins) (denom : String)
        → amount_of (env.add_coins a b) denom ≡ amount_of a denom + amount_of b denom
    pub none_of : (denom : String) → amount_of env.no_coins denom ≡ 0

  -- What stands in the balances of a denomination.
  unfoldable pub balances_of : (Coins → String → ℕ) → String → List Balance → ℕ
  balances_of amount_of denom [] = 0
  balances_of amount_of denom (b ∷ bs) = amount_of b.coins denom + balances_of amount_of denom bs

  pub balances_of-snoc :
      (amount_of : Coins → String → ℕ) (denom : String) (bs : List Balance) (b : Balance)
      → balances_of amount_of denom (bs ++ b ∷ [])
        ≡ balances_of amount_of denom bs + amount_of b.coins denom
  unfolding balances_of
  balances_of-snoc amount_of denom [] b = omega arith
  balances_of-snoc amount_of denom (a ∷ bs) b = omega (arith, balances_of-snoc amount_of denom bs b)

  pub total_supply-balances_of :
      (amount_of : Coins → String → ℕ)
      → Measure amount_of
      → (denom : String) (supply : Coins) (bs : List Balance)
      → amount_of (total_supply env supply bs) denom
        ≡ amount_of supply denom + balances_of amount_of denom bs
  unfolding total_supply balances_of
  total_supply-balances_of amount_of m denom supply [] = omega arith
  total_supply-balances_of amount_of m denom supply (b ∷ bs) = omega (
    arith,
    total_supply-balances_of amount_of m denom (env.add_coins supply b.coins) bs,
    m.add supply b.coins denom,
  )

module _ {S : Type 0} (env : FundingEnv S) where
  -- A measure of the store: what is in circulation, and what the minting module holds. Minting adds
  -- to both, and sending moves out of the module what was sent.
  pub record Ledger (amount : Coins → ℕ) (supply held : S → ℕ) : Type 0 where
    pub mint_supply :
        (coins : Coins) (s s' : S)
        → env.mint_coins coins s ≡ ok s'
        → supply s' ≡ supply s + amount coins
    pub mint_held :
        (coins : Coins) (s s' : S)
        → env.mint_coins coins s ≡ ok s'
        → held s' ≡ held s + amount coins
    pub send_supply :
        (addr : String) (coins : Coins) (s s' : S)
        → env.send_coins_from_module_to_account addr coins s ≡ ok s'
        → supply s' ≡ supply s
    pub send_held :
        (addr : String) (coins : Coins) (s s' : S)
        → env.send_coins_from_module_to_account addr coins s ≡ ok s'
        → held s' + amount coins ≡ held s

  module _ (amount : Coins → ℕ) (supply held : S → ℕ) (ledger : Ledger amount supply held) where
    init_account-Ledger :
        (addr : String) (coins : Coins) (s s' : S)
        → init_account_with_coins env addr coins s ≡ ok s'
        → (supply s' ≡ supply s + amount coins) × (held s' ≡ held s)
    unfolding init_account_with_coins
    init_account-Ledger addr coins s s' h =
        let (minted, e, f) = >>=-eq-ok (or_panic (env.mint_coins coins s)) _ h in
        let mint = or_panic-eq-ok (env.mint_coins coins s) e in
        let send = or_panic-eq-ok (env.send_coins_from_module_to_account addr coins minted) f in
        let h₁ = ledger.mint_supply coins s minted mint in
        let h₂ = ledger.mint_held coins s minted mint in
        let h₃ = ledger.send_supply addr coins minted s' send in
        let h₄ = ledger.send_held addr coins minted s' send in
        (omega (arith, h₁, h₃), omega (arith, h₂, h₄))

    fund_each-Ledger :
        (addrs : List String) (coins : Coins) (s s' : S)
        → fund_each env addrs coins s ≡ ok s'
        → (supply s' ≡ supply s + length addrs * amount coins) × (held s' ≡ held s)
    unfolding fund_each
    fund_each-Ledger [] coins s s' h =
        let same = ok-injective h in (omega (arith, ap supply same), ap held (sym same))
    fund_each-Ledger (addr ∷ addrs) coins s s' h =
        let (funded, e, f) = >>=-eq-ok (init_account_with_coins env addr coins s) _ h in
        let (g, k) = init_account-Ledger addr coins s funded e in
        let (g', k') = fund_each-Ledger addrs coins funded s' f in
        (more (length addrs) (amount coins) (supply s) (supply funded) (supply s') g g', k' ∙ k)
      where
        more : (n a s₀ s₁ s₂ : ℕ) → s₁ ≡ s₀ + a → s₂ ≡ s₁ + n * a → s₂ ≡ s₀ + suc n * a
        more n a s₀ s₁ s₂ g h = omega (arith, g, h, suc-mul n a)

    -- Where the bank keeps a ledger: funding a number of test accounts, when it succeeds, puts into
    -- circulation the amount of the coins of one account for each of them, and leaves the minting
    -- module with what it held before.
    pub add_test_addrs-Ledger :
        (acc_num acc_amt : ℕ) (s : S) {addrs : List String} {s' : S}
        → add_test_addrs env acc_num acc_amt s ≡ ok (addrs, s')
        → (bond_denom : String) × (env.bond_denom s ≡ ok bond_denom)
          × (addrs ≡ env.create_accounts acc_num)
          × (supply s' ≡ supply s + length addrs * amount (env.new_coins bond_denom acc_amt))
          × (held s' ≡ held s)
    unfolding add_test_addrs
    add_test_addrs-Ledger acc_num acc_amt s {addrs} {s'} h =
        let (bond_denom, e, f) = >>=-eq-ok (or_panic (env.bond_denom s)) _ h in
        let (funded, e', f') =
          >>=-eq-ok
            (fund_each env (env.create_accounts acc_num) (env.new_coins bond_denom acc_amt) s) _
            f in
        let same : ◌≡◌ {A = List String × S} (env.create_accounts acc_num, funded) (addrs, s') =
          ok-injective f' in
        let names : env.create_accounts acc_num ≡ addrs = ap (λ p. p.0) same in
        let coins = env.new_coins bond_denom acc_amt in
        let (g, k) = fund_each-Ledger (env.create_accounts acc_num) coins s funded e' in
        (
          bond_denom,
          or_panic-eq-ok (env.bond_denom s) e,
          sym names,
          ap (λ p. supply p.1) (sym same) ∙ g ∙ ap (λ l. supply s + length l * amount coins) names,
          ap (λ p. held p.1) (sym same) ∙ k,
        )
