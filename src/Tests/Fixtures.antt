-- ===== src/Tests/Fixtures.antt =====
-- A genesis with two validators and one account, and the funding of three accounts.
use vector_chain.Prelude.{
  fail_is_ok, ℕ, ◌+◌, ◌-◌, ◌*◌, ◌≡◌, refl, String, str_eq, Option, none, some, List, [], ◌∷◌, ◌++◌,
  length, arith, Outcome, ok, fail, error, ok-injective, ap, sym, if◌then◌else◌, leb, leb→le,
  Bool-cases, inl, inr, ◌≤◌,
}
use vector_chain.App.Modules.{Module, staking, bank}
use vector_chain.Fixtures.{
  Coins, Balance, Validator, Delegation, ConsensusValidator, FixtureEnv, bonded_balance,
  genesis_state_with_val_set, FundingEnv, add_test_addrs,
}
use vector_chain.Fixtures.Supply.{Measure, balances_of, Ledger, add_test_addrs-Ledger}
use vector_chain.Fixtures.Laws.{total_tokens, Gathered, genesis_state_with_val_set_lem}

abbrev pub amount_of : Coins → String → ℕ
amount_of [] denom = 0
amount_of ((d, n) ∷ coins) denom = (if str_eq d denom then n else 0) + amount_of coins denom

amount_of-append :
    (a b : Coins) (denom : String)
    → amount_of (a ++ b) denom ≡ amount_of a denom + amount_of b denom
amount_of-append [] b denom = omega arith
amount_of-append ((d, n) ∷ a) b denom = omega (arith, amount_of-append a b denom)

-- JSON is the sum of what the bank is given, or nothing.
abbrev pub env : FixtureEnv String String String String (Coins)
env = record {
  from_cmt_pub_key = λ p. ok p;
  new_any_with_value = λ k. ok k;
  val_address = λ address. "valoper";
  cons_address = λ address. "valcons";
  account_address = λ acc. acc;
  default_power_reduction = 1000000;
  default_bond_denom = "stake";
  bonded_pool_address = "pool";
  no_coins = [];
  add_coins = λ a b. a ++ b;
  marshal_auth = λ accs. [];
  marshal_staking = λ vs ds. [];
  marshal_slashing = λ infos. [];
  marshal_bank = λ balances supply. supply;
}

pub measure : Measure env amount_of
measure = record { add = amount_of-append; none_of = λ denom. refl }

abbrev pub val_set : List (ConsensusValidator String)
val_set =
    record { pub_key = "key"; address = 1 ∷ [] }
    ∷ record { pub_key = "other"; address = 2 ∷ [] }
    ∷ []

abbrev pub balances : List Balance
balances = record { address = "alice"; coins = ("stake", 5) ∷ [] } ∷ []

-- What the genesis state becomes, by its run.
abbrev made : Outcome (Module → Option Coins)
made = genesis_state_with_val_set env (λ m. none) val_set ("alice" ∷ []) balances

abbrev entries : Outcome (Module → Option Coins) → Module → Option Coins
entries (ok g) = g
entries (fail x) = λ m. none

made-ok : made ≡ ok (entries made)
unfolding genesis_state_with_val_set
made-ok = refl

bank_entry : entries made bank ≡ some (("stake", 5) ∷ ("stake", 2000000) ∷ [])
unfolding genesis_state_with_val_set
bank_entry = refl

genesis_state_with_val_set_lem_applied :
    (bonded : List (Validator String) × List Delegation) × (supply : Coins) × Gathered env
      ("alice" ∷ [])
      val_set
      []
      bonded
    × (entries made staking ≡ some (env.marshal_staking bonded.0 bonded.1))
    × (entries made bank
        ≡ some (env.marshal_bank (balances ++ bonded_balance env (length val_set) ∷ []) supply))
    × (Balance.coins (bonded_balance env (length val_set))
        ≡ (env.default_bond_denom, total_tokens env bonded.0) ∷ [])
    × ((denom : String)
        → amount_of supply denom
          ≡ balances_of env amount_of denom balances
            + amount_of (Balance.coins (bonded_balance env (length val_set))) denom)
genesis_state_with_val_set_lem_applied =
    genesis_state_with_val_set_lem env amount_of measure (λ m. none) val_set ("alice" ∷ []) balances
      (entries made) made-ok

-- The bank is what is in circulation and what the minting module holds.
abbrev total : Coins → ℕ
total [] = 0
total ((d, n) ∷ coins) = n + total coins

abbrev sent : Coins → ℕ × ℕ → Outcome (ℕ × ℕ)
sent coins (supply, held) =
    if leb (total coins) held then ok (supply, held - total coins) else fail (error "insufficient")

abbrev names : List String
names = "a" ∷ "b" ∷ "c" ∷ []

abbrev funding : FundingEnv (ℕ × ℕ)
funding = record {
  bond_denom = λ s. ok "stake";
  new_coins = λ denom n. (denom, n) ∷ [];
  mint_coins = λ coins s. ok (s.0 + total coins, s.1 + total coins);
  send_coins_from_module_to_account = λ addr coins s. sent coins s;
  create_accounts = λ n. names;
}

sent-law :
    (coins : Coins) (s s' : ℕ × ℕ)
    → sent coins s ≡ ok s'
    → (s'.0 ≡ s.0) × (s'.1 + total coins ≡ s.1)
sent-law coins (supply, held) s' h = elim (Bool-cases (leb (total coins) held)) [
  | inl enough ↦
      let same : ◌≡◌ {A = ℕ × ℕ} (supply, held - total coins) s' = ok-injective (rw enough at h) in
      let le : total coins ≤ held = leb→le (total coins) held enough in
      let e : held - total coins ≡ s'.1 = ap (λ p. p.1) same in
      (sym (ap (λ p. p.0) same), omega (arith, e, le))
  | inr short ↦ absurd (fail_is_ok (rw short at h))
]

ledger : Ledger funding total (λ s. s.0) (λ s. s.1)
ledger = record {
  mint_supply = λ coins s s' e. ap (λ p. p.0) (sym (ok-injective e));
  mint_held = λ coins s s' e. ap (λ p. p.1) (sym (ok-injective e));
  send_supply = λ addr coins s s' e. (sent-law coins s s' e).0;
  send_held = λ addr coins s s' e. (sent-law coins s s' e).1;
}

add_test_addrs_runs : add_test_addrs funding 3 10 (7, 2) ≡ ok (names, (37, 2))
unfolding add_test_addrs
add_test_addrs_runs = refl

add_test_addrs-Ledger_applied :
    (bond_denom : String) × (funding.bond_denom (7, 2) ≡ ok bond_denom)
    × (names ≡ funding.create_accounts 3)
    × (37 ≡ 7 + length names * total (funding.new_coins bond_denom 10))
    × (◌≡◌ {A = ℕ} 2 2)
add_test_addrs-Ledger_applied =
    add_test_addrs-Ledger funding total (λ s. s.0) (λ s. s.1) ledger 3 10 (7, 2) add_test_addrs_runs
