-- ===== src/Fixtures.antt =====
-- app/test_helpers.go: the genesis state with a validator set, and the accounts that are funded for
-- a test.
pub mod Supply
pub mod Setup
pub mod SetupLaws
pub mod Single
pub mod Network
pub mod Laws
use vector_chain.Prelude.{
  ℕ, zero, suc, ◌+◌, ◌*◌, String, Bool, true, false, Option, none, some, List, [], ◌∷◌, ◌++◌,
  length, map, if◌then◌else◌, text_append, Failure, error, panic, Outcome, ok, fail, or_panic,
  ◌>>=◌, ◌>>◌,
}
use vector_chain.App.Modules.{Module, auth, staking, slashing, bank, same_module}

-- Coins and balances.
abbrev pub Coins : Type 0
Coins = List (String × ℕ)

pub record Balance : Type 0 where
  pub address : String
  pub coins : Coins

-- `stakingtypes.Validator`, as the code sets it; `A` is a packed public key. The shares are in whole
-- units.
pub record Validator (A : Type 0) : Type 0 where
  pub operator_address : String
  pub consensus_pubkey : A
  pub jailed : Bool
  pub bonded : Bool
  pub tokens : ℕ
  pub delegator_shares : ℕ
  pub unbonding_height : ℕ
  pub unbonding_time : ℕ
  pub commission_rate : ℕ
  pub min_self_delegation : ℕ

pub record Delegation : Type 0 where
  pub delegator_address : String
  pub validator_address : String
  pub shares : ℕ

-- A validator of the consensus engine: its public key and address.
pub record ConsensusValidator (P : Type 0) : Type 0 where
  pub pub_key : P
  pub address : List ℕ

-- What the code calls of the SDK. `P` is a public key of the consensus engine, `K` one of the SDK,
-- `A` a packed one, `Acc` a genesis account, `J` JSON.
pub record FixtureEnv (P K A Acc J : Type 0) : Type 0 where
  pub from_cmt_pub_key : P → Outcome K
  pub new_any_with_value : K → Outcome A
  pub val_address : List ℕ → String
  pub cons_address : List ℕ → String
  pub account_address : Acc → String
  pub default_power_reduction : ℕ
  pub default_bond_denom : String
  pub bonded_pool_address : String
  pub no_coins : Coins
  pub add_coins : Coins → Coins → Coins
  pub marshal_auth : List Acc → J
  pub marshal_staking : List (Validator A) → List Delegation → J
  pub marshal_slashing : List String → J
  pub marshal_bank : List Balance → Coins → J

module _ {P K A Acc J : Type 0} (env : FixtureEnv P K A Acc J) where
  -- `if err != nil { return nil, fmt.Errorf("...: %w", err) }`
  abbrev pub wrap : {B : Type 0} → String → Outcome B → Outcome B
  wrap what (fail (error e)) = fail (error (text_append what (text_append ": " e)))
  wrap what r = r

  -- `genAccs[0].GetAddress().String()`
  abbrev pub first_address : List Acc → Outcome String
  first_address [] = fail (panic "index out of range")
  first_address (acc ∷ accs) = ok (env.account_address acc)

  abbrev pub new_validator : ConsensusValidator P → A → Validator A
  new_validator val pk_any = record {
    operator_address = env.val_address val.address;
    consensus_pubkey = pk_any;
    jailed = false;
    bonded = true;
    tokens = env.default_power_reduction;
    delegator_shares = 1;
    unbonding_height = 0;
    unbonding_time = 0;
    commission_rate = 0;
    min_self_delegation = 0;
  }

  -- The loop over the validators, behind what it has gathered.
  unfoldable pub bond_validators :
      List Acc
      → List (ConsensusValidator P)
      → List (Validator A)
      → List Delegation
      → Outcome (List (Validator A) × List Delegation)
  bond_validators gen_accs [] validators delegations = ok (validators, delegations)
  bond_validators gen_accs (val ∷ vals) validators delegations = do
    pk ← wrap "failed to convert pubkey" (env.from_cmt_pub_key val.pub_key)
    pk_any ← wrap "failed to create new any" (env.new_any_with_value pk)
    delegator ← first_address gen_accs
    bond_validators gen_accs vals (validators ++ new_validator val pk_any ∷ []) (
        delegations
        ++ record {
          delegator_address = delegator;
          validator_address = env.val_address val.address;
          shares = 1;
        }
          ∷ [])

  -- `for _, b := range balances { totalSupply = totalSupply.Add(b.Coins...) }`
  unfoldable pub total_supply : Coins → List Balance → Coins
  total_supply supply [] = supply
  total_supply supply (b ∷ bs) = total_supply (env.add_coins supply b.coins) bs

  -- `genesisState[module] = bz`
  abbrev pub put : Module → J → (Module → Option J) → Module → Option J
  put m bz genesis_state n = if same_module m n then some bz else genesis_state n

  abbrev pub bonded_balance : ℕ → Balance
  bonded_balance validators = record {
    address = env.bonded_pool_address;
    coins = (env.default_bond_denom, env.default_power_reduction * validators) ∷ [];
  }

  unfoldable pub genesis_state_with_val_set :
      (Module → Option J)
      → List (ConsensusValidator P)
      → List Acc
      → List Balance
      → Outcome (Module → Option J)
  unfolding bond_validators total_supply
  genesis_state_with_val_set genesis_state val_set gen_accs balances = do
    bonded ← bond_validators gen_accs val_set [] []
    let balances' = balances ++ bonded_balance (length val_set) ∷ []
    let supply = total_supply env.no_coins balances'
    ok (
        put bank (env.marshal_bank balances' supply) (
          put slashing (env.marshal_slashing (map (λ val. env.cons_address val.address) val_set)) (
            put staking (env.marshal_staking bonded.0 bonded.1)
              (put auth (env.marshal_auth gen_accs) genesis_state))))

-- The bank and the staking keepers, as far as an account is funded. `S` is the store.
pub record FundingEnv (S : Type 0) : Type 0 where
  pub bond_denom : S → Outcome String
  pub new_coins : String → ℕ → Coins
  pub mint_coins : Coins → S → Outcome S
  pub send_coins_from_module_to_account : String → Coins → S → Outcome S
  pub create_accounts : ℕ → List String

module _ {S : Type 0} (env : FundingEnv S) where
  unfoldable pub init_account_with_coins : String → Coins → S → Outcome S
  init_account_with_coins addr coins s = do
    minted ← or_panic (env.mint_coins coins s)
    or_panic (env.send_coins_from_module_to_account addr coins minted)

  -- The loop over the addresses.
  unfoldable pub fund_each : List String → Coins → S → Outcome S
  unfolding init_account_with_coins
  fund_each [] coins s = ok s
  fund_each (addr ∷ addrs) coins s = do
    funded ← init_account_with_coins addr coins s
    fund_each addrs coins funded

  unfoldable pub add_test_addrs : ℕ → ℕ → S → Outcome (List String × S)
  unfolding fund_each
  add_test_addrs acc_num acc_amt s = do
    bond_denom ← or_panic (env.bond_denom s)
    funded ← fund_each (env.create_accounts acc_num) (env.new_coins bond_denom acc_amt) s
    ok (env.create_accounts acc_num, funded)
