-- ===== src/Commands/ExportLaws.antt =====
-- What `appExport` of cmd/vectord/commands.go exports.
use vector_chain.Prelude.{
  fail_is_ok, String, str_eq, Bool, true, false, some, List, [], ℤ, is_minus_one, if◌then◌else◌, ok,
  fail, error, ◌>>=◌, ◌≡◌, refl, ◌↔◌, ◌⊎◌, inl, inr, Bool-cases, Option-cases, >>=-eq-ok,
  ok-injective, sym, ap, ◌∙◌, subst,
}
use vector_chain.Commands.{AppOptions, Chain, home_path, viper_options, app_export}

module _ {C E BaseOption : Type 0} (chain : Chain C E BaseOption) where
  -- The application as the export finds it: created on the latest version where the height is -1, or
  -- else created on none and loaded at the height.
  unfoldable pub LoadedAt : ℤ → AppOptions → C → Type 0
  LoadedAt height app_opts c =
      ((is_minus_one height ≡ true)
        × (chain.new_chain_app true (record app_opts { inv_check_period = 1 }) [] [] ≡ ok c))
      ⊎ ((is_minus_one height ≡ false)
          × (c₀ : C) × (chain.new_chain_app false (record app_opts { inv_check_period = 1 }) [] []
              ≡ ok c₀)
          × (chain.load_height height c₀ ≡ ok c))

  unfoldable pub HasHome : AppOptions → Type 0
  HasHome app_opts = (home : String) × (app_opts.home ≡ some home) × (str_eq home "" ≡ false)

  home_path-ok :
      (app_opts : AppOptions) {home : String}
      → home_path chain app_opts.home ≡ ok home
      → HasHome app_opts
  unfolding HasHome
  home_path-ok app_opts h = elim (Option-cases app_opts.home) [
    | inl unset ↦ absurd (fail_is_ok (rw unset at h))
    | inr (home, set) ↦ elim (Bool-cases (str_eq home "")) [
      | inl empty ↦ absurd (fail_is_ok (rw (set, empty) at h))
      | inr named ↦ (home, set, named)
    ]
  ]

  viper_options-ok :
      (app_opts : AppOptions) {a : AppOptions}
      → viper_options chain app_opts ≡ ok a
      → (app_opts.is_viper ≡ true) × (app_opts ≡ a)
  viper_options-ok app_opts {a} h = go app_opts.is_viper h
    where
      go :
          (b : Bool)
          → (if b then ok app_opts else fail (error "appOpts is not viper.Viper")) ≡ ok a
          → (b ≡ true) × (app_opts ≡ a)
      go true e = (refl, ok-injective e)
      go false e = cc

  options-viper :
      (app_opts : AppOptions) (b : Bool)
      → b ≡ true
      → (if b then ok app_opts else fail (error "appOpts is not viper.Viper")) ≡ ok app_opts
  options-viper app_opts b e = rw e refl

  load-LoadedAt :
      (height : ℤ) (app_opts : AppOptions) (c₀ c : C)
      → chain.new_chain_app (is_minus_one height) (record app_opts { inv_check_period = 1 }) [] []
        ≡ ok c₀
      → (if is_minus_one height then ok c₀ else chain.load_height height c₀) ≡ ok c
      → LoadedAt height app_opts c
  unfolding LoadedAt
  load-LoadedAt height app_opts c₀ c made loaded = elim (Bool-cases (is_minus_one height)) [
    | inl latest ↦
        let same : ok c₀ ≡ ok c = rw latest at loaded in inl (latest, rw latest at made ∙ same)
    | inr other ↦ inr (other, c₀, rw other at made, rw other at loaded)
  ]

  -- The export gives `e` just where the options have a home and are a viper, and `e` is the export of
  -- the application that was loaded at the height asked for, with invariants checked at each block.
  pub app_export_iff :
      (height : ℤ) (for_zero_height : Bool) (jail_allowed_addrs : List String)
      (app_opts : AppOptions) (modules_to_export : List String) (e : E)
      → (app_export chain height for_zero_height jail_allowed_addrs app_opts modules_to_export
          ≡ ok e)
        ↔ (HasHome app_opts
            × (app_opts.is_viper ≡ true)
            × (c : C) × LoadedAt height app_opts c
            × (chain.export_app_state_and_validators for_zero_height jail_allowed_addrs
                  modules_to_export c
                ≡ ok e))
  unfolding app_export HasHome LoadedAt
  app_export_iff height for_zero_height jail_allowed_addrs app_opts modules_to_export e = (
    (λ h.
        let (home, e₁, f₁) = >>=-eq-ok (home_path chain app_opts.home) _ h in
        let (opts, e₂, f₂) = >>=-eq-ok (viper_options chain app_opts) _ f₁ in
        let (is_viper, same) = viper_options-ok app_opts e₂ in
        let (c₀, e₃, f₃) =
          >>=-eq-ok
            (chain.new_chain_app (is_minus_one height) (record opts { inv_check_period = 1 }) [] [])
            _ f₂ in
        let (c, e₄, f₄) =
          >>=-eq-ok (if is_minus_one height then ok c₀ else chain.load_height height c₀) _ f₃ in
        (
          home_path-ok app_opts e₁,
          is_viper,
          c,
          subst (λ o. LoadedAt height o c) (sym same) (load-LoadedAt height opts c₀ c e₃ e₄),
          f₄,
        )),
    λ ((home, has, named), viper, c, at_height, exported).
        let rest = λ (opts : AppOptions).
          chain.new_chain_app (is_minus_one height) (record opts { inv_check_period = 1 }) [] []
          >>= λ chain_app.
              (if is_minus_one height then ok chain_app else chain.load_height height chain_app)
              >>= λ loaded.
                  chain.export_app_state_and_validators for_zero_height jail_allowed_addrs
                    modules_to_export loaded in
        let path : home_path chain app_opts.home ≡ ok home = rw (has, named) refl in
        let last : rest app_opts ≡ ok e = elim at_height [
          | inl (latest, made) ↦ rw (latest, made) exported
          | inr (other, c₀, made, loaded) ↦ rw (other, made, loaded) exported
        ] in
        ap (λ r. r >>= λ _. viper_options chain app_opts >>= rest) path
        ∙ ap (λ r. r >>= rest) (options-viper app_opts app_opts.is_viper viper)
        ∙ last,
  )
