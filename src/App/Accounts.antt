-- ===== src/App/Accounts.antt =====
-- `maccPerms`, `GetMaccPerms` and `BlockedAddresses` of app/app.go. A map from texts to true is the
-- list of its keys.
use vector_chain.Prelude.{String, str_eq, List, [], ◌∷◌, if◌then◌else◌, contains}

-- The names of the module accounts.
pub data Account : Type 0 where
  fee_collector distribution mint bonded_pool not_bonded_pool gov nft transfer ibc_fee : Account
  interchain_accounts wasm token_factory : Account

pub data Permission : Type 0 where
  minter burner staking : Permission

unfoldable pub macc_perms : List (Account × List Permission)
macc_perms =
    (fee_collector, [])
    ∷ (distribution, [])
    ∷ (mint, minter ∷ [])
    ∷ (bonded_pool, burner ∷ staking ∷ [])
    ∷ (not_bonded_pool, burner ∷ staking ∷ [])
    ∷ (gov, burner ∷ [])
    ∷ (nft, [])
    ∷ (transfer, minter ∷ burner ∷ [])
    ∷ (ibc_fee, [])
    ∷ (interchain_accounts, [])
    ∷ (wasm, burner ∷ [])
    ∷ (token_factory, minter ∷ burner ∷ [])
    ∷ []

-- `m[k] = true`
unfoldable pub insert : String → List String → List String
insert k m = if contains k m then m else k ∷ m

unfoldable pub delete : String → List String → List String
delete k [] = []
delete k (x ∷ xs) = let rest = delete k xs in if str_eq k x then rest else x ∷ rest

module _ (module_address : Account → String) where
  -- The loop over the accounts, in the order that the iteration of the map takes.
  unfoldable pub module_addresses : List Account → List String → List String
  unfolding insert
  module_addresses [] m = m
  module_addresses (acc ∷ accs) m = module_addresses accs (insert (module_address acc) m)

  unfoldable pub blocked_addresses : List Account → List String
  unfolding module_addresses delete
  blocked_addresses accs = delete (module_address gov) (module_addresses accs [])
