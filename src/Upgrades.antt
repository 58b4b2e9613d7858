-- ===== src/Upgrades.antt =====
-- app/upgrades.go, app/upgrades/types.go, app/upgrades/noop and app/upgrades/v2: the upgrades of the
-- chain and their registration with the upgrade keeper. The keeper, the module manager and the
-- configurator are the SDK's and enter as parameters; `S` is the state that a migration changes.
pub mod Register
use vector_chain.Prelude.{
  ℕ, ◌≡◌, String, text_append, str_eq, Bool, true, false, Option, none, some, List, [], ◌∷◌, ◌++◌,
  if◌then◌else◌, Outcome, ok, fail, error, panic, ◌>>=◌,
}

-- `module.VersionMap`: a module's name and its consensus version.
abbrev pub VersionMap : Type 0
VersionMap = List (String × ℕ)

-- `upgradetypes.Plan`
pub record Plan : Type 0 where
  pub name : String
  pub height : ℕ
  pub info : String

-- `storetypes.StoreUpgrades`
pub record StoreUpgrades : Type 0 where
  pub added : List String
  pub deleted : List String

module _ (S Cfg AppKeepers : Type 0) where
  -- The interface `ModuleManager` of types.go.
  pub record ModuleManager : Type 0 where
    pub run_migrations : S → Cfg → VersionMap → Outcome VersionMap × S
    pub get_version_map : VersionMap

  -- `upgradetypes.UpgradeHandler`
  abbrev pub UpgradeHandler : Type 0
  UpgradeHandler = S → Plan → VersionMap → Outcome VersionMap × S

  pub record Upgrade : Type 0 where
    pub upgrade_name : String
    pub create_upgrade_handler : ModuleManager → Cfg → AppKeepers → UpgradeHandler
    pub store_upgrades : StoreUpgrades

module _ {S Cfg AppKeepers : Type 0} where
  -- `CreateUpgradeHandler` of app/upgrades/noop.
  unfoldable pub noop_create_upgrade_handler :
      ModuleManager S Cfg AppKeepers → Cfg → AppKeepers → UpgradeHandler S Cfg AppKeepers
  noop_create_upgrade_handler mm configurator ak s plan from_vm =
      mm.run_migrations s configurator from_vm

  -- `NewUpgrade` of app/upgrades/noop.
  unfoldable pub new_upgrade : String → Upgrade S Cfg AppKeepers
  new_upgrade semver = record {
    upgrade_name = semver;
    create_upgrade_handler = noop_create_upgrade_handler;
    store_upgrades = record { added = []; deleted = [] };
  }

  -- `CreateUpgradeHandler` of app/upgrades/v2.
  unfoldable pub v2_create_upgrade_handler :
      ModuleManager S Cfg AppKeepers → Cfg → AppKeepers → UpgradeHandler S Cfg AppKeepers
  v2_create_upgrade_handler mm configurator ak s plan from_vm =
      mm.run_migrations s configurator from_vm

  -- `Upgrade` of app/upgrades/v2.
  unfoldable pub v2_upgrade : Upgrade S Cfg AppKeepers
  v2_upgrade = record {
    upgrade_name = "v2.0.0";
    create_upgrade_handler = v2_create_upgrade_handler;
    store_upgrades = record { added = []; deleted = [] };
  }

  -- The variable `Upgrades` of app/upgrades.go, as the program starts with it.
  unfoldable pub chain_upgrades : List (Upgrade S Cfg AppKeepers)
  chain_upgrades = v2_upgrade ∷ []

-- What the code calls of the upgrade keeper `K`.
pub record UpgradeKeeper (S Cfg AppKeepers K : Type 0) : Type 0 where
  pub set_upgrade_handler : String → UpgradeHandler S Cfg AppKeepers → K → K
  pub read_upgrade_info_from_disk : K → Outcome Plan
  pub is_skip_height : ℕ → K → Bool

-- What `RegisterUpgradeHandlers` reads and changes: the list of upgrades, the keeper, the version of
-- the application and the store loader, given by the arguments of `UpgradeStoreLoader`.
pub record App (S Cfg AppKeepers K : Type 0) : Type 0 where
  pub upgrades : List (Upgrade S Cfg AppKeepers)
  pub upgrade_keeper : K
  pub version : String
  pub store_loader : Option (ℕ × StoreUpgrades)

module _ {S Cfg AppKeepers : Type 0} where
  -- The loop that looks for the upgrade of the plan; `break` ends it at the first.
  unfoldable pub find_loader :
      Plan
      → List (Upgrade S Cfg AppKeepers)
      → Option (ℕ × StoreUpgrades)
      → Option (ℕ × StoreUpgrades)
  find_loader plan [] loader = loader
  find_loader plan (u ∷ us) loader =
      if str_eq plan.name u.upgrade_name
      then some (plan.height, u.store_upgrades)
      else find_loader plan us loader

  -- `if len(Upgrades) == 0 { Upgrades = append(Upgrades, noop.NewUpgrade(app.Version())) }`
  unfoldable pub with_default :
      List (Upgrade S Cfg AppKeepers) → String → List (Upgrade S Cfg AppKeepers)
  with_default [] version = new_upgrade version ∷ []
  with_default (u ∷ us) version = u ∷ us

abbrev read_failed : Outcome Plan → Outcome Plan
read_failed (fail (error e)) = fail (panic (text_append "failed to read upgrade info from disk " e))
read_failed r = r

module _ {S Cfg AppKeepers K : Type 0} (uk : UpgradeKeeper S Cfg AppKeepers K)
    (mm : ModuleManager S Cfg AppKeepers) (configurator : Cfg) (keepers : AppKeepers) where
  -- The loop that registers the handlers.
  unfoldable pub set_handlers : List (Upgrade S Cfg AppKeepers) → K → K
  set_handlers [] k = k
  set_handlers (u ∷ us) k =
      set_handlers us
        (uk.set_upgrade_handler u.upgrade_name (u.create_upgrade_handler mm configurator keepers) k)

  -- The return at a height to skip leaves the store loader as it is.
  unfoldable pub register_upgrade_handlers :
      App S Cfg AppKeepers K → Outcome (App S Cfg AppKeepers K)
  unfolding set_handlers find_loader with_default
  register_upgrade_handlers app = do
    let upgrades = with_default app.upgrades app.version
    let k = set_handlers upgrades app.upgrade_keeper
    plan ← read_failed (uk.read_upgrade_info_from_disk k)
    let loader =
        if uk.is_skip_height plan.height k
        then app.store_loader
        else find_loader plan upgrades app.store_loader
    ok (record app { upgrades = upgrades; upgrade_keeper = k; store_loader = loader })
