-- ===== src/Export.antt =====
-- app/export.go: the state that the export reads and changes, and what it calls of the keepers. The
-- keepers are the SDK's: `S` is the store behind the context, the block height of the context is the
-- number that each call takes, and an address is its bytes.
pub mod Prepare
pub mod ExportApp
pub mod Visit
pub mod Laws
pub mod Heights
pub mod Jail
pub mod Result
pub mod Pool
use vector_chain.Prelude.{
  ℕ, ◌≡◌, String, Bool, true, false, List, [], ◌∷◌, if◌then◌else◌, Outcome, ok, fail, ◌>>=◌,
}

abbrev pub Bytes : Type 0
Bytes = String

-- An entry of a redelegation or of an unbonding delegation; `content` is its other fields.
pub record Entry : Type 0 where
  pub creation_height : ℕ
  pub content : String

pub record Redelegation : Type 0 where
  pub delegator_address : String
  pub validator_src_address : String
  pub validator_dst_address : String
  pub entries : List Entry

pub record UnbondingDelegation : Type 0 where
  pub delegator_address : String
  pub validator_address : String
  pub entries : List Entry

pub record Delegation : Type 0 where
  pub delegator_address : String
  pub validator_address : String

pub record Validator : Type 0 where
  pub operator_address : String
  pub jailed : Bool
  pub unbonding_height : ℕ
  pub content : String

pub record SigningInfo : Type 0 where
  pub start_height : ℕ
  pub content : String

-- A callback of an iteration: it says whether to stop, and may panic.
abbrev pub Callback : Type 0 → Type 0 → Type 0
Callback S V = V → S → Outcome (Bool × S)

pub record Keepers (S Coins : Type 0) : Type 0 where
  -- addresses
  pub val_address_from_bech32 : String → Outcome Bytes
  pub must_acc_address_from_bech32 : String → Outcome Bytes
  pub val_address_string : Bytes → String
  pub validator_address_codec : String → Outcome Bytes
  -- crisis
  pub assert_invariants : ℕ → S → Outcome S
  -- distribution
  pub withdraw_validator_commission : Bytes → ℕ → S → Outcome (Unit {0}) × S
  pub withdraw_delegation_rewards : Bytes → Bytes → ℕ → S → Outcome S
  pub delete_all_validator_slash_events : ℕ → S → S
  pub delete_all_validator_historical_rewards : ℕ → S → S
  pub get_validator_outstanding_rewards_coins : Bytes → ℕ → S → Outcome Coins
  pub fee_pool_get : ℕ → S → Outcome Coins
  pub fee_pool_set : Coins → ℕ → S → Outcome S
  pub add_coins : Coins → Coins → Coins
  pub after_validator_created : Bytes → ℕ → S → Outcome S
  pub before_delegation_created : Bytes → Bytes → ℕ → S → Outcome S
  pub after_delegation_modified : Bytes → Bytes → ℕ → S → Outcome S
  -- staking
  pub iterate_validators : Callback S Validator → ℕ → S → Outcome S
  pub get_all_delegations : ℕ → S → Outcome (List Delegation)
  pub iterate_redelegations : Callback S Redelegation → ℕ → S → Outcome S
  pub set_redelegation : Redelegation → ℕ → S → Outcome S
  pub iterate_unbonding_delegations : Callback S UnbondingDelegation → ℕ → S → Outcome S
  pub set_unbonding_delegation : UnbondingDelegation → ℕ → S → Outcome S
  -- the addresses in the keys that the reverse prefix iterator over `ValidatorsKey` visits
  pub validators_keys : S → List Bytes
  pub close_iterator : S → Outcome (Unit {0})
  pub get_validator : Bytes → ℕ → S → Outcome Validator
  pub set_validator : Validator → ℕ → S → Outcome S
  pub apply_and_return_validator_set_updates : ℕ → S → Outcome S
  -- slashing
  pub iterate_validator_signing_infos : Callback S (Bytes × SigningInfo) → ℕ → S → Outcome S
  pub set_validator_signing_info : Bytes → SigningInfo → ℕ → S → Outcome S
