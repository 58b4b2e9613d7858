-- ===== src/Tests/App.antt =====
-- The module accounts, the module orders, and a chain whose parameters are not in its store yet.
use vector_chain.Prelude.{
  false_is_true, ℕ, ◌+◌, ◌≡◌, ◌≢◌, ◌↔◌, refl, String, Bool, true, false, List, [], ◌∷◌, ◌⊎◌, All,
  contains, Failure, error, Outcome, ok, fail, ap, str_eq, subst, if◌then◌else◌,
}
use vector_chain.Prelude.Actions.{is_error, panicking}
use vector_chain.App.Accounts.{
  Account, fee_collector, distribution, mint, bonded_pool, not_bonded_pool, gov, nft, transfer,
  ibc_fee, interchain_accounts, wasm, token_factory, blocked_addresses,
}
use vector_chain.App.Blocked.{
  is_module_address, blocked_addresses_iff, BlockedUnlessGov, blocked_addresses_but_gov,
}
use vector_chain.App.Modules.{staking}
use vector_chain.App.ModuleOrder.{Counted, genesis_module_order-Counted}
use vector_chain.App.Lifecycle.{
  Runtime, ChainApp, ensure_params, finalize_block, finalize_blocks, init_chainer,
}
use vector_chain.App.Blocks.{
  base_finalize_blocks, finalize_blocks_once, HasParams, finalize_block-HasParams, init_chainer_lem,
}

abbrev address : Account → String
address fee_collector = "fee_collector"
address distribution = "distribution"
address mint = "mint"
address bonded_pool = "bonded_tokens_pool"
address not_bonded_pool = "not_bonded_tokens_pool"
address gov = "gov"
address nft = "nft"
address transfer = "transfer"
address ibc_fee = "feeibc"
address interchain_accounts = "interchainaccounts"
address wasm = "wasm"
address token_factory = "tokenfactory"

abbrev some_accounts : List Account
some_accounts = mint ∷ gov ∷ wasm ∷ []

blocked_runs : blocked_addresses address some_accounts ≡ "wasm" ∷ "mint" ∷ []
unfolding blocked_addresses
blocked_runs = refl

blocked_addresses_iff_example :
    (contains "mint" (blocked_addresses address some_accounts) ≡ true)
    ↔ ((is_module_address address "mint" some_accounts ≡ true) × ("mint" ≢ address gov))
blocked_addresses_iff_example = blocked_addresses_iff address "mint" some_accounts

apart : (acc : Account) → address acc ≡ address gov → acc ≡ gov
apart gov e = refl
apart fee_collector e = absurd (false_is_true (ap (str_eq "gov") e))
apart distribution e = absurd (false_is_true (ap (str_eq "gov") e))
apart mint e = absurd (false_is_true (ap (str_eq "gov") e))
apart bonded_pool e = absurd (false_is_true (ap (str_eq "gov") e))
apart not_bonded_pool e = absurd (false_is_true (ap (str_eq "gov") e))
apart nft e = absurd (false_is_true (ap (str_eq "gov") e))
apart transfer e = absurd (false_is_true (ap (str_eq "gov") e))
apart ibc_fee e = absurd (false_is_true (ap (str_eq "gov") e))
apart interchain_accounts e = absurd (false_is_true (ap (str_eq "gov") e))
apart wasm e = absurd (false_is_true (ap (str_eq "gov") e))
apart token_factory e = absurd (false_is_true (ap (str_eq "gov") e))

blocked_addresses_but_gov_applied : All (BlockedUnlessGov address some_accounts) some_accounts
blocked_addresses_but_gov_applied = blocked_addresses_but_gov address apart some_accounts

genesis_module_order-Counted_applied : Counted staking
genesis_module_order-Counted_applied = genesis_module_order-Counted staking

-- The store says whether it has parameters, and counts the blocks.
abbrev Store : Type 0
Store = Bool × ℕ

abbrev find_params : Store → Outcome (Unit {0}) × Store
find_params (true, n) = (ok tt, (true, n))
find_params (false, n) = (fail (error "not found"), (false, n))

abbrev runtime : Runtime Store String String ℕ ℕ String String
runtime = record {
  consensus_params = find_params;
  get_subspace = λ name. (name, true);
  baseapp_paramspace = "baseapp";
  migrate_params = λ sub s. (ok tt, (true, s.1));
  base_finalize_block = λ req s. (ok (req + s.1), (s.0, s.1 + 1));
  unmarshal_genesis = λ bytes. if str_eq bytes "" then fail (error "unexpected end") else ok bytes;
  get_version_map = ("bank", 4) ∷ [];
  set_module_version_map = λ vm s. (ok tt, s);
  init_genesis = λ genesis s. (ok genesis, (true, 0));
  pre_block = λ s. (ok "pre", s);
  begin_block = λ s. (ok "begin", s);
  end_block = λ s. (ok "end", s);
  load_version = λ height s. (ok tt, s);
}

abbrev started : ChainApp Store
started = record { once = false; store = (false, 5) }

finalize_blocks_runs :
    finalize_blocks runtime (10 ∷ 20 ∷ []) started
    ≡ (ok 15 ∷ ok 26 ∷ [], record { once = true; store = (true, 7) })
unfolding finalize_blocks finalize_block panicking
finalize_blocks_runs = refl

finalize_blocks_once_example :
    let (r, app') = finalize_block runtime 10 started in
    let (rs, s) = base_finalize_blocks runtime (20 ∷ []) app'.store in
    finalize_blocks runtime (10 ∷ 20 ∷ []) started ≡ (r ∷ rs, record { once = true; store = s })
finalize_blocks_once_example = finalize_blocks_once runtime 10 (20 ∷ []) started

query_reads : (s : Store) → (find_params s).1 ≡ s
query_reads (true, n) = refl
query_reads (false, n) = refl

migrates : (s s' : Store) → runtime.migrate_params "baseapp" s ≡ (ok tt, s') → HasParams runtime s'
unfolding HasParams
migrates s s' e =
    ((true, s.1), subst (λ z. find_params z ≡ (ok tt, (true, s.1))) (λ i. (e i).1) refl)

finalize_block-HasParams_example :
    let (r, app') = finalize_block runtime 10 started in
    ((s : Store) × HasParams runtime s × (runtime.base_finalize_block 10 s ≡ (r, app'.store)))
    ⊎ ((x : Failure) × (ensure_params runtime started.store ≡ (fail x, app'.store))
        × (r ≡ fail x)
        × (is_error x ≡ false))
finalize_block-HasParams_example =
    finalize_block-HasParams runtime query_reads migrates 10 started refl

init_chainer_lem_applied :
    let (r, s') = init_chainer runtime "{}" (false, 0) in
    ((genesis : String) × (s₁ : Store) × (runtime.unmarshal_genesis "{}" ≡ ok genesis)
      × (runtime.set_module_version_map runtime.get_version_map (false, 0) ≡ (ok tt, s₁))
      × (runtime.init_genesis genesis s₁ ≡ (r, s')))
    ⊎ ((x : Failure) × (r ≡ fail x) × (is_error x ≡ false))
init_chainer_lem_applied = init_chainer_lem runtime "{}" (false, 0)
