-- ===== src/App/ModuleOrder.antt =====
-- What the orders of the modules of app/app.go guarantee.
use vector_chain.Prelude.{
  ℕ, suc, ◌≡◌, refl, Bool, true, false, not, List, [], ◌∷◌, if◌then◌else◌, Precedes, precedes,
  precedes→Precedes, All,
}
use vector_chain.App.Modules.{
  Module, genutil, auth, vesting, bank, feegrant, gov, mint, slashing, distribution, staking,
  upgrade, evidence, params, authz, group, nft, consensus, circuit, capability, wasm, ibc, transfer,
  ibc_fee, interchain_accounts, ibc_tm, crisis, token_factory, packet_forward, rate_limit,
  same_module, module_manager, begin_blockers, genesis_module_order,
}

-- How often a module stands in a list.
unfoldable pub count : Module → List Module → ℕ
count m [] = 0
count m (n ∷ l) = let rest = count m l in if same_module m n then suc rest else rest

-- How often each module stands in the module manager and in the genesis order.
abbrev pub Counted : Module → Type 0
Counted m =
    (count m module_manager ≡ 1)
    × (count m genesis_module_order ≡ (if same_module m ibc_tm then 0 else 1))

-- Every module is put into the module manager once, and stands once in the genesis order, other than
-- the light client of IBC, which stands there not at all.
pub genesis_module_order-Counted : (m : Module) → Counted m
unfolding count module_manager genesis_module_order
genesis_module_order-Counted genutil = (refl, refl)
genesis_module_order-Counted auth = (refl, refl)
genesis_module_order-Counted vesting = (refl, refl)
genesis_module_order-Counted bank = (refl, refl)
genesis_module_order-Counted feegrant = (refl, refl)
genesis_module_order-Counted gov = (refl, refl)
genesis_module_order-Counted mint = (refl, refl)
genesis_module_order-Counted slashing = (refl, refl)
genesis_module_order-Counted distribution = (refl, refl)
genesis_module_order-Counted staking = (refl, refl)
genesis_module_order-Counted upgrade = (refl, refl)
genesis_module_order-Counted evidence = (refl, refl)
genesis_module_order-Counted params = (refl, refl)
genesis_module_order-Counted authz = (refl, refl)
genesis_module_order-Counted group = (refl, refl)
genesis_module_order-Counted nft = (refl, refl)
genesis_module_order-Counted consensus = (refl, refl)
genesis_module_order-Counted circuit = (refl, refl)
genesis_module_order-Counted capability = (refl, refl)
genesis_module_order-Counted wasm = (refl, refl)
genesis_module_order-Counted ibc = (refl, refl)
genesis_module_order-Counted transfer = (refl, refl)
genesis_module_order-Counted ibc_fee = (refl, refl)
genesis_module_order-Counted interchain_accounts = (refl, refl)
genesis_module_order-Counted ibc_tm = (refl, refl)
genesis_module_order-Counted crisis = (refl, refl)
genesis_module_order-Counted token_factory = (refl, refl)
genesis_module_order-Counted packet_forward = (refl, refl)
genesis_module_order-Counted rate_limit = (refl, refl)

-- The modules that claim capabilities.
abbrev pub claims_capabilities : Module → Bool
claims_capabilities transfer = true
claims_capabilities ibc = true
claims_capabilities interchain_accounts = true
claims_capabilities wasm = true
claims_capabilities _ = false

before_wasm :
    (ms : List Module)
    → All (λ m. precedes (same_module m) (same_module wasm) genesis_module_order ≡ true) ms
    → All (λ m. Precedes (same_module m) (same_module wasm) genesis_module_order) ms
before_wasm [] h = tt
before_wasm (m ∷ ms) h = (
  precedes→Precedes (same_module m) (same_module wasm) genesis_module_order h.0,
  before_wasm ms h.1,
)

-- In genesis, capability stands before every other module, auth and staking before genutil, and the
-- modules that a contract may call during genesis before wasm: bank, auth, staking, distribution,
-- governance and transfer. At the beginning of a block, distribution stands before slashing, and
-- capability before the modules that claim capabilities.
pub modules-Precedes :
    Precedes (same_module capability) (λ m. not (same_module capability m)) genesis_module_order
    × Precedes (same_module auth) (same_module genutil) genesis_module_order
    × Precedes (same_module staking) (same_module genutil) genesis_module_order
    × All
        (λ m. Precedes (same_module m) (same_module wasm) genesis_module_order)
        (bank ∷ auth ∷ staking ∷ distribution ∷ gov ∷ transfer ∷ [])
    × Precedes (same_module distribution) (same_module slashing) begin_blockers
    × Precedes (same_module capability) claims_capabilities begin_blockers
unfolding precedes genesis_module_order begin_blockers
modules-Precedes = (
  precedes→Precedes _ _ _ refl,
  precedes→Precedes _ _ _ refl,
  precedes→Precedes _ _ _ refl,
  before_wasm (bank ∷ auth ∷ staking ∷ distribution ∷ gov ∷ transfer ∷ [])
      (refl, (refl, (refl, (refl, (refl, (refl, tt)))))),
  precedes→Precedes _ _ _ refl,
  precedes→Precedes _ _ _ refl,
)
