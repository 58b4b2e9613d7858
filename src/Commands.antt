-- ===== src/Commands.antt =====
-- cmd/vectord/commands.go and root.go: how the application is created and exported for the commands
-- of the server, and what runs before each command.
pub mod ExportLaws
pub mod Context
pub mod PreRun
pub mod PreRunLaws
pub mod Tree
pub mod Root
pub mod RootContext
pub mod RootLaws
pub mod RootReturns
use vector_chain.Prelude.{
  ℕ, String, str_eq, text_append, Bool, true, false, Option, none, some, List, [], ◌∷◌, ℤ,
  is_minus_one, if◌then◌else◌, Outcome, ok, fail, error, ◌>>=◌, ◌>>◌,
}

-- The options of the application, as far as they are read or set: the value under the key of the
-- home flag where it is a text, whether they are a `*viper.Viper`, the value under
-- `telemetry.enabled`, and the invariant check period.
pub record AppOptions : Type 0 where
  pub home : Option String
  pub is_viper : Bool
  pub telemetry_enabled : Bool
  pub inv_check_period : ℕ

-- An option of the wasm keeper.
pub data WasmOption : Type 0 where
  vm_cache_metrics : WasmOption

-- The calls of the application, of type `C`: `NewChainApp`, which panics on what it cannot set up,
-- with `loadLatest`, the options, those of the wasm keeper and those of the base application;
-- `LoadHeight`; and `ExportAppStateAndValidators`, which gives an `E`.
pub record Chain (C E BaseOption : Type 0) : Type 0 where
  pub new_chain_app : Bool → AppOptions → List WasmOption → List BaseOption → Outcome C
  pub default_baseapp_options : AppOptions → List BaseOption
  pub load_height : ℤ → C → Outcome C
  pub export_app_state_and_validators : Bool → List String → List String → C → Outcome E

module _ {C E BaseOption : Type 0} (chain : Chain C E BaseOption) where
  unfoldable pub new_app : AppOptions → Outcome C
  new_app app_opts =
      let wasm_opts = if app_opts.telemetry_enabled then vm_cache_metrics ∷ [] else [] in
      chain.new_chain_app true app_opts wasm_opts (chain.default_baseapp_options app_opts)

  -- `homePath, ok := ...; if !ok || homePath == "" { return ... }`
  abbrev pub home_path : Option String → Outcome String
  home_path none = fail (error "application home is not set")
  home_path (some home) =
      if str_eq home "" then fail (error "application home is not set") else ok home

  abbrev pub viper_options : AppOptions → Outcome AppOptions
  viper_options app_opts =
      if app_opts.is_viper then ok app_opts else fail (error "appOpts is not viper.Viper")

  unfoldable pub app_export : ℤ → Bool → List String → AppOptions → List String → Outcome E
  app_export height for_zero_height jail_allowed_addrs app_opts modules_to_export = do
    home ← home_path app_opts.home
    viper_app_opts ← viper_options app_opts
    chain_app ←
        chain.new_chain_app (is_minus_one height) (record viper_app_opts { inv_check_period = 1 })
          [] []
    loaded ← if is_minus_one height then ok chain_app else chain.load_height height chain_app
    chain.export_app_state_and_validators for_zero_height jail_allowed_addrs modules_to_export
        loaded
