-- ===== src/Tests/Options.antt =====
-- The store keys of two orders of a map, a plan at a height to skip, and the modules of the command
-- line.
use mathlib.Core.List.{Perm}
use mathlib.Core.List.Perm
use vector_chain.Prelude.{
  ℕ, ◌≡◌, refl, String, true, false, none, some, List, [], ◌∷◌, lookup, ok, ◌⊎◌,
}
use vector_chain.App.StoreKeys.{get_store_keys}
use vector_chain.App.StoreKeysLaws.{IsSorted, get_store_keys-perm_iff}
use vector_chain.App.AutoCli.{ListedModule, auto_cli_opts, last_named, auto_cli_opts_lem}
use vector_chain.App.SkipHeights.{has_height, skip_upgrade_heights, register-skips}
use vector_chain.Upgrades.{
  Plan, ModuleManager, UpgradeKeeper, App, chain_upgrades, with_default, register_upgrade_handlers,
}
use vector_chain.Upgrades.Register.{IsUnnamed, FirstNamed}

get_store_keys_runs :
    get_store_keys ("mint" ∷ "acc" ∷ "bank" ∷ "ac" ∷ []) ≡ "ac" ∷ "acc" ∷ "bank" ∷ "mint" ∷ []
unfolding get_store_keys
get_store_keys_runs = refl

get_store_keys-perm_iff_example :
    (get_store_keys ("mint" ∷ "acc" ∷ []) ≡ get_store_keys ("acc" ∷ "mint" ∷ []))
    × Perm (get_store_keys ("mint" ∷ "acc" ∷ [])) ("mint" ∷ "acc" ∷ [])
    × IsSorted (get_store_keys ("mint" ∷ "acc" ∷ []))
get_store_keys-perm_iff_example =
    get_store_keys-perm_iff ("mint" ∷ "acc" ∷ []) ("acc" ∷ "mint" ∷ []) (Perm.swap "acc" "mint" [])

abbrev plan : Plan
plan = record { name = "v2.0.0"; height = 50; info = "" }

abbrev manager : ModuleManager ℕ String String
manager = record {
  run_migrations = λ s configurator from_vm. (ok from_vm, s);
  get_version_map = [];
}

-- The state of the keeper is what `is_skip_height` reads of the heights that it was made with.
abbrev keeper : UpgradeKeeper ℕ String String ℕ
keeper = record {
  set_upgrade_handler = λ name handler k. k;
  read_upgrade_info_from_disk = λ k. ok plan;
  is_skip_height = λ height k. has_height height (skip_upgrade_heights (50 ∷ 70 ∷ 50 ∷ []) []);
}

abbrev fresh : App ℕ String String ℕ
fresh = record {
  upgrades = chain_upgrades;
  upgrade_keeper = 0;
  version = "v1.0.0";
  store_loader = none;
}

fresh_registered :
    register_upgrade_handlers keeper manager "configurator" "keepers" fresh ≡ ok fresh
unfolding register_upgrade_handlers skip_upgrade_heights chain_upgrades
fresh_registered = refl

register-skips_example :
    let upgrades = with_default fresh.upgrades fresh.version in
    (plan : Plan) × (keeper.read_upgrade_info_from_disk fresh.upgrade_keeper ≡ ok plan)
    × ((has_height plan.height (50 ∷ 70 ∷ 50 ∷ []) ≡ true)
          × (fresh.store_loader ≡ fresh.store_loader)
        ⊎ (has_height plan.height (50 ∷ 70 ∷ 50 ∷ []) ≡ false)
          × (IsUnnamed plan.name upgrades × (fresh.store_loader ≡ fresh.store_loader)
              ⊎ FirstNamed plan upgrades fresh.store_loader))
register-skips_example =
    register-skips keeper manager "configurator" "keepers" (50 ∷ 70 ∷ 50 ∷ []) (λ h k. refl) fresh
      fresh_registered

abbrev listed : List (ListedModule ℕ)
listed =
    record { name = some "bank"; is_app_module = true; self = 1 }
    ∷ record { name = none; is_app_module = true; self = 2 }
    ∷ record { name = some "bank"; is_app_module = true; self = 3 }
    ∷ record { name = some "gov"; is_app_module = false; self = 4 }
    ∷ []

last_runs : last_named "bank" listed none ≡ some 3
unfolding last_named
last_runs = refl

auto_cli_opts_lem_applied :
    let opts =
      auto_cli_opts
        (λ (ms : List (ListedModule ℕ)). ms)
        (λ (prefix : String). prefix)
        "vector"
        "vectorvaloper"
        "vectorvalcons"
        listed in
    (lookup "bank" opts.modules ≡ last_named "bank" listed none)
    × (opts.address_codec ≡ "vector")
    × (opts.validator_address_codec ≡ "vectorvaloper")
    × (opts.consensus_address_codec ≡ "vectorvalcons")
auto_cli_opts_lem_applied =
    auto_cli_opts_lem (λ ms. ms) (λ prefix. prefix) "vector" "vectorvaloper" "vectorvalcons" listed
      "bank"
