-- ===== src/Upgrades/Register.antt =====
-- What `RegisterUpgradeHandlers` of app/upgrades.go leaves in the upgrade keeper and in the store
-- loader.
use vector_chain.Prelude.{
  ℕ, ◌≡◌, ◌≢◌, refl, String, text_append, str_eq, eq_iff, true, false, Option, some, List, [], ◌∷◌,
  ◌++◌, if◌then◌else◌, Outcome, ok, fail, error, panic, fatal, ◌⊎◌, inl, inr, Bool-cases, All, sym,
  ◌∙◌, ap, >>=-eq-ok, ok-injective,
}
use vector_chain.Upgrades.{
  Plan, StoreUpgrades, ModuleManager, UpgradeHandler, Upgrade, UpgradeKeeper, App, chain_upgrades,
  v2_upgrade, v2_create_upgrade_handler, new_upgrade, noop_create_upgrade_handler, set_handlers,
  find_loader, with_default, register_upgrade_handlers, read_failed,
}

-- The handler that an upgrade of the list gives to a name; the last one counts.
abbrev pub handled :
    {S Cfg AppKeepers : Type 0} (mm : ModuleManager S Cfg AppKeepers) (configurator : Cfg)
    (keepers : AppKeepers)
    → String
    → List (Upgrade S Cfg AppKeepers)
    → Option (UpgradeHandler S Cfg AppKeepers)
    → Option (UpgradeHandler S Cfg AppKeepers)
handled mm configurator keepers j [] before = before
handled mm configurator keepers j (u ∷ us) before = handled mm configurator keepers j us (
    if str_eq j u.upgrade_name
    then some (u.create_upgrade_handler mm configurator keepers)
    else before)

read_failed-eq-ok : (r : Outcome Plan) {p : Plan} → read_failed r ≡ ok p → r ≡ ok p
read_failed-eq-ok (ok p) e = e
read_failed-eq-ok (fail (error m)) e = cc
read_failed-eq-ok (fail (panic m)) e = e
read_failed-eq-ok (fail (fatal m)) e = e

module _ {S Cfg AppKeepers : Type 0} where
  -- No upgrade of the list has the name.
  abbrev pub IsUnnamed : String → List (Upgrade S Cfg AppKeepers) → Type 0
  IsUnnamed name = All (λ u. name ≢ u.upgrade_name)

  -- The loader is that of the first upgrade with the plan's name.
  pub FirstNamed : Plan → List (Upgrade S Cfg AppKeepers) → Option (ℕ × StoreUpgrades) → Type 0
  FirstNamed plan us loader =
      (before : List (Upgrade S Cfg AppKeepers)) × (u : Upgrade S Cfg AppKeepers) × (after : List
        (Upgrade S Cfg AppKeepers))
      × (us ≡ before ++ u ∷ after)
      × IsUnnamed plan.name before
      × (plan.name ≡ u.upgrade_name)
      × (loader ≡ some (plan.height, u.store_upgrades))

  find_loader-cases :
      (plan : Plan) (us : List (Upgrade S Cfg AppKeepers)) (loader : Option (ℕ × StoreUpgrades))
      → IsUnnamed plan.name us × (find_loader plan us loader ≡ loader)
        ⊎ FirstNamed plan us (find_loader plan us loader)
  unfolding find_loader FirstNamed
  find_loader-cases plan [] loader = inl (tt, refl)
  find_loader-cases plan (u ∷ us) loader = elim (Bool-cases (str_eq plan.name u.upgrade_name)) [
    | inl same ↦ inr ([], u, us, refl, tt, (eq_iff plan.name u.upgrade_name).0 same, rw same)
    | inr other ↦
        let ne : plan.name ≢ u.upgrade_name =
          λ e. let t = (eq_iff plan.name u.upgrade_name).1 e in cc in
        elim (find_loader-cases plan us loader) [
          | inl (unnamed, kept) ↦ inl ((ne, unnamed), rw other kept)
          | inr (before, v, after, split, unnamed, named, found) ↦
              inr
                (u ∷ before, v, after, ap (λ l. u ∷ l) split, (ne, unnamed), named, rw other found)
        ]
  ]

module _ {S Cfg AppKeepers K : Type 0} (uk : UpgradeKeeper S Cfg AppKeepers K)
    (mm : ModuleManager S Cfg AppKeepers) (configurator : Cfg) (keepers : AppKeepers) where
  abbrev registered : App S Cfg AppKeepers K → K
  registered app =
      set_handlers uk mm configurator keepers (with_default app.upgrades app.version)
        app.upgrade_keeper

  abbrev loaded : App S Cfg AppKeepers K → Plan → Option (ℕ × StoreUpgrades)
  loaded app plan =
      if uk.is_skip_height plan.height (registered app)
      then app.store_loader
      else find_loader plan (with_default app.upgrades app.version) app.store_loader

  register-eq-ok :
      (app : App S Cfg AppKeepers K) {app' : App S Cfg AppKeepers K}
      → register_upgrade_handlers uk mm configurator keepers app ≡ ok app'
      → (plan : Plan) × (uk.read_upgrade_info_from_disk (registered app) ≡ ok plan)
        × (app'.upgrade_keeper ≡ registered app)
        × (app'.store_loader ≡ loaded app plan)
  unfolding register_upgrade_handlers
  register-eq-ok app {app'} e =
      let (plan, r, f) = >>=-eq-ok _ _ e in
      let done = sym (ok-injective f) in
      (plan, read_failed-eq-ok _ r, ap App.upgrade_keeper done, ap App.store_loader done)

  -- A registration that succeeds has read a plan from the disk. Its height is one to skip, and the
  -- store loader is as before; or no upgrade has the plan's name, and the loader is as before; or
  -- the loader is set to the plan's height and the store upgrades of the first upgrade with that
  -- name.
  pub register-store_loader :
      (app : App S Cfg AppKeepers K) {app' : App S Cfg AppKeepers K}
      → register_upgrade_handlers uk mm configurator keepers app ≡ ok app'
      → let upgrades = with_default app.upgrades app.version in
        let k = app'.upgrade_keeper in
        (plan : Plan) × (uk.read_upgrade_info_from_disk k ≡ ok plan)
        × ((uk.is_skip_height plan.height k ≡ true) × (app'.store_loader ≡ app.store_loader)
            ⊎ (uk.is_skip_height plan.height k ≡ false)
              × (IsUnnamed plan.name upgrades × (app'.store_loader ≡ app.store_loader)
                  ⊎ FirstNamed plan upgrades app'.store_loader))
  register-store_loader app {app'} e =
      let (plan, r, k, l) = register-eq-ok app e in (plan, rw k r, by_height plan k l)
    where
      by_height :
          (plan : Plan)
          → app'.upgrade_keeper ≡ registered app
          → app'.store_loader ≡ loaded app plan
          → (uk.is_skip_height plan.height app'.upgrade_keeper ≡ true)
              × (app'.store_loader ≡ app.store_loader)
            ⊎ (uk.is_skip_height plan.height app'.upgrade_keeper ≡ false)
              × (IsUnnamed plan.name (with_default app.upgrades app.version)
                    × (app'.store_loader ≡ app.store_loader)
                  ⊎ FirstNamed plan (with_default app.upgrades app.version) app'.store_loader)
      by_height plan k l = elim (Bool-cases (uk.is_skip_height plan.height (registered app))) [
        | inl skip ↦ inl (ap (uk.is_skip_height plan.height) k ∙ skip, rw skip at l)
        | inr go ↦ inr (
          ap (uk.is_skip_height plan.height) k ∙ go,
          rw (rw go at l)
              (find_loader-cases plan (with_default app.upgrades app.version) app.store_loader),
        )
      ]

  -- Where a plan is read from the disk, the registration returns.
  pub register-Returns :
      (app : App S Cfg AppKeepers K)
      → ((k : K) → (plan : Plan) × (uk.read_upgrade_info_from_disk k ≡ ok plan))
      → (app' : App S Cfg AppKeepers K) × (register_upgrade_handlers uk mm configurator keepers app
          ≡ ok app')
  unfolding register_upgrade_handlers
  register-Returns app reads =
      let (plan, e) = reads (registered app) in
      (
        record app {
          upgrades = with_default app.upgrades app.version;
          upgrade_keeper = registered app;
          store_loader = loaded app plan;
        },
        rw e refl,
      )

  -- A disk error while the plan is read is a panic, whatever the upgrades are.
  register_disk_error :
      (app : App S Cfg AppKeepers K) (m : String)
      → uk.read_upgrade_info_from_disk (registered app) ≡ fail (error m)
      → register_upgrade_handlers uk mm configurator keepers app
        ≡ fail (panic (text_append "failed to read upgrade info from disk " m))
  unfolding register_upgrade_handlers
  register_disk_error app m h = rw h

  module _ (handler : String → K → Option (UpgradeHandler S Cfg AppKeepers))
      (handler-set_upgrade_handler : (j name : String) (h : UpgradeHandler S Cfg AppKeepers) (k : K)
        → handler j (uk.set_upgrade_handler name h k)
          ≡ (if str_eq j name then some h else handler j k)) where
    handler-set_handlers :
        (j : String) (us : List (Upgrade S Cfg AppKeepers)) (k : K)
        → handler j (set_handlers uk mm configurator keepers us k)
          ≡ handled mm configurator keepers j us (handler j k)
    unfolding set_handlers
    handler-set_handlers j [] k = refl
    handler-set_handlers j (u ∷ us) k =
        rw (handler-set_handlers j us, handler-set_upgrade_handler j u.upgrade_name)

    -- If the keeper keeps the last handler set for a name, then after a registration that succeeds a
    -- name has the handler that the last upgrade of that name creates, and a name that no upgrade
    -- has keeps the handler it had.
    pub register-handlers :
        (app : App S Cfg AppKeepers K) {app' : App S Cfg AppKeepers K} (j : String)
        → register_upgrade_handlers uk mm configurator keepers app ≡ ok app'
        → handler j app'.upgrade_keeper
          ≡ handled mm configurator keepers j
              (with_default app.upgrades app.version)
              (handler j app.upgrade_keeper)
    register-handlers app j e =
        let (plan, r, k, l) = register-eq-ok app e in
        rw (k, handler-set_handlers j _ app.upgrade_keeper)

    -- With no upgrade declared, if the keeper keeps the last handler set for a name, the name of the
    -- application's version has a handler that runs the migrations and returns their result.
    pub register_default :
        (app : App S Cfg AppKeepers K) {app' : App S Cfg AppKeepers K}
        → register_upgrade_handlers uk mm configurator keepers app ≡ ok app'
        → app.upgrades ≡ []
        → handler app.version app'.upgrade_keeper
          ≡ some (λ s plan from_vm. mm.run_migrations s configurator from_vm)
    unfolding new_upgrade noop_create_upgrade_handler with_default
    register_default app e none_declared =
        register-handlers app app.version e
        ∙ rw (none_declared, (eq_iff app.version app.version).1 refl)

    -- With the upgrades that the program declares, if the keeper keeps the last handler set for a
    -- name, the name "v2.0.0" has a handler that runs the migrations and returns their result.
    pub register_program :
        (app : App S Cfg AppKeepers K) {app' : App S Cfg AppKeepers K}
        → register_upgrade_handlers uk mm configurator keepers app ≡ ok app'
        → app.upgrades ≡ chain_upgrades
        → handler "v2.0.0" app'.upgrade_keeper
          ≡ some (λ s plan from_vm. mm.run_migrations s configurator from_vm)
    unfolding chain_upgrades v2_upgrade v2_create_upgrade_handler with_default
    register_program app e program = register-handlers app "v2.0.0" e ∙ rw program
