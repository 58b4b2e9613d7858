-- ===== src/Wiring/Owners.antt =====
-- Which keepers `NewChainApp` of app/app.go gives the stores to, and in which order it makes its calls.
use vector_chain.Prelude.{ℕ, ◌+◌, ◌≡◌, refl, Bool, false, ◌||◌, List, [], ◌∷◌, if◌then◌else◌}
use vector_chain.Wiring.Stores.{Store, same_store}
use vector_chain.Wiring.Calls.{
  Argument, place, part, kv_store, store_service, subspace, names, stores, outside, nil_literal,
  Call, assign, perform, perform_logged,
}
use vector_chain.Wiring.Construct.{construction_calls}

abbrev pub takes : Store → Argument → Bool
takes s (kv_store t) = same_store s t
takes s (store_service t) = same_store s t
takes s (place p) = false
takes s (part p x) = false
takes s (subspace n) = false
takes s (names ms) = false
takes s (stores ss) = false
takes s (outside e) = false
takes s (nil_literal e) = false

unfoldable pub any_takes : Store → List Argument → Bool
any_takes s [] = false
any_takes s (a ∷ as') = takes s a || any_takes s as'

-- How many of the calls are handed the store.
unfoldable pub owners : Store → List Call → ℕ
unfolding any_takes
owners s [] = 0
owners s (assign p as' _ ∷ cs) = (if any_takes s as' then 1 else 0) + owners s cs
owners s (perform e as' _ ∷ cs) = (if any_takes s as' then 1 else 0) + owners s cs
owners s (perform_logged e as' ∷ cs) = (if any_takes s as' then 1 else 0) + owners s cs

-- Each store that is mounted is handed to one keeper, and to no other.
pub construction_calls-owners : (s : Store) → owners s construction_calls ≡ 1
unfolding owners construction_calls
construction_calls-owners Store.auth = refl
construction_calls-owners Store.bank = refl
construction_calls-owners Store.staking = refl
construction_calls-owners Store.crisis = refl
construction_calls-owners Store.mint = refl
construction_calls-owners Store.distribution = refl
construction_calls-owners Store.slashing = refl
construction_calls-owners Store.gov = refl
construction_calls-owners Store.params = refl
construction_calls-owners Store.consensus = refl
construction_calls-owners Store.upgrade = refl
construction_calls-owners Store.feegrant = refl
construction_calls-owners Store.evidence = refl
construction_calls-owners Store.circuit = refl
construction_calls-owners Store.authz = refl
construction_calls-owners Store.nft = refl
construction_calls-owners Store.group = refl
construction_calls-owners Store.capability = refl
construction_calls-owners Store.ibc = refl
construction_calls-owners Store.transfer = refl
construction_calls-owners Store.ibc_fee = refl
construction_calls-owners Store.wasm = refl
construction_calls-owners Store.ica_host = refl
construction_calls-owners Store.ica_controller = refl
construction_calls-owners Store.token_factory = refl
construction_calls-owners Store.packet_forward = refl
construction_calls-owners Store.rate_limit = refl
