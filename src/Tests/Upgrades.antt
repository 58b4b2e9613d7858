-- ===== src/Tests/Upgrades.antt =====
-- The registration of the chain's own upgrades, with the plan of one of them on the disk, and of the
-- default one.
use vector_chain.Prelude.{
  ℕ, ◌+◌, ◌≡◌, refl, String, str_eq, true, false, Option, none, some, List, [], ◌∷◌, if◌then◌else◌,
  ok, ◌⊎◌,
}
use vector_chain.Upgrades.{
  Plan, StoreUpgrades, ModuleManager, UpgradeHandler, Upgrade, UpgradeKeeper, App, chain_upgrades,
  v2_upgrade, new_upgrade, set_handlers, with_default, register_upgrade_handlers,
}
use vector_chain.Upgrades.Register.{
  handled, IsUnnamed, FirstNamed, register-store_loader, register-handlers, register_default,
  register_program,
}

-- The state counts the runs of the migrations.
abbrev manager : ModuleManager ℕ String String
manager = record {
  run_migrations = λ s configurator from_vm. (ok (("bank", 4) ∷ []), s + 1);
  get_version_map = ("bank", 4) ∷ [];
}

abbrev Handlers : Type 0
Handlers = String → Option (UpgradeHandler ℕ String String)

abbrev v2_plan : Plan
v2_plan = record { name = "v2.0.0"; height = 50; info = "" }

abbrev keeper : UpgradeKeeper ℕ String String Handlers
keeper = record {
  set_upgrade_handler = λ name h k j. if str_eq j name then some h else k j;
  read_upgrade_info_from_disk = λ k. ok v2_plan;
  is_skip_height = λ height k. false;
}

abbrev no_stores : StoreUpgrades
no_stores = record { added = []; deleted = [] }

abbrev fresh : App ℕ String String Handlers
fresh = record {
  upgrades = chain_upgrades;
  upgrade_keeper = λ j. none;
  version = "v1.0.0";
  store_loader = none;
}

abbrev undeclared : App ℕ String String Handlers
undeclared = record fresh { upgrades = [] }

abbrev keeper_after : List (Upgrade ℕ String String) → Handlers
keeper_after upgrades = set_handlers keeper manager "configurator" "keepers" upgrades (λ j. none)

abbrev registered_app : App ℕ String String Handlers
registered_app = record fresh {
  upgrade_keeper = keeper_after chain_upgrades;
  store_loader = some (50, no_stores);
}

abbrev default_app : App ℕ String String Handlers
default_app = record fresh {
  upgrades = new_upgrade "v1.0.0" ∷ [];
  upgrade_keeper = keeper_after (new_upgrade "v1.0.0" ∷ []);
}

fresh_registers :
    register_upgrade_handlers keeper manager "configurator" "keepers" fresh ≡ ok registered_app
unfolding register_upgrade_handlers chain_upgrades v2_upgrade
fresh_registers = refl

undeclared_registers :
    register_upgrade_handlers keeper manager "configurator" "keepers" undeclared ≡ ok default_app
unfolding register_upgrade_handlers new_upgrade
undeclared_registers = refl

register-store_loader_example :
    (plan : Plan) × (keeper.read_upgrade_info_from_disk registered_app.upgrade_keeper ≡ ok plan)
    × ((keeper.is_skip_height plan.height registered_app.upgrade_keeper ≡ true)
          × (registered_app.store_loader ≡ fresh.store_loader)
        ⊎ (keeper.is_skip_height plan.height registered_app.upgrade_keeper ≡ false)
          × (IsUnnamed plan.name (with_default fresh.upgrades fresh.version)
                × (registered_app.store_loader ≡ fresh.store_loader)
              ⊎ FirstNamed plan
                  (with_default fresh.upgrades fresh.version)
                  registered_app.store_loader))
register-store_loader_example =
    register-store_loader keeper manager "configurator" "keepers" fresh fresh_registers

register-handlers_example :
    registered_app.upgrade_keeper "v2.0.0"
    ≡ handled manager "configurator" "keepers" "v2.0.0"
        (with_default fresh.upgrades fresh.version)
        none
register-handlers_example =
    register-handlers keeper manager "configurator" "keepers" (λ j k. k j) (λ j name h k. refl)
      fresh "v2.0.0" fresh_registers

register_default_applied :
    default_app.upgrade_keeper "v1.0.0"
    ≡ some (λ s plan from_vm. manager.run_migrations s "configurator" from_vm)
register_default_applied =
    register_default keeper manager "configurator" "keepers" (λ j k. k j) (λ j name h k. refl)
      undeclared undeclared_registers refl

register_program_applied :
    registered_app.upgrade_keeper "v2.0.0"
    ≡ some (λ s plan from_vm. manager.run_migrations s "configurator" from_vm)
register_program_applied =
    register_program keeper manager "configurator" "keepers" (λ j k. k j) (λ j name h k. refl) fresh
      fresh_registers refl
