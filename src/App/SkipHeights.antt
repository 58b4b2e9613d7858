-- ===== src/App/SkipHeights.antt =====
-- The heights of app/app.go at which an upgrade is skipped, and what they mean for the registration of
-- the upgrades in app/upgrades.go.
use vector_chain.Prelude.{
  ℕ, ◌==◌, ◌≡◌, refl, sym, ap, ◌∙◌, Bool, true, false, ◌||◌, List, [], ◌∷◌, if◌then◌else◌, ok, ◌⊎◌,
  inl, inr, Bool-cases, arith,
}
use vector_chain.Upgrades.{
  Plan, ModuleManager, UpgradeKeeper, App, with_default, register_upgrade_handlers,
}
use vector_chain.Upgrades.Register.{IsUnnamed, FirstNamed, register-store_loader}

abbrev pub has_height : ℕ → List ℕ → Bool
has_height h [] = false
has_height h (k ∷ ks) = h == k || has_height h ks

-- `skipUpgradeHeights[int64(h)] = true`, for a map that is the list of its keys.
abbrev pub skip_height : ℕ → List ℕ → List ℕ
skip_height h skipped = if has_height h skipped then skipped else h ∷ skipped

-- The loop over the heights of the flag.
unfoldable pub skip_upgrade_heights : List ℕ → List ℕ → List ℕ
skip_upgrade_heights [] skipped = skipped
skip_upgrade_heights (h ∷ heights) skipped = skip_upgrade_heights heights (skip_height h skipped)

has_height-skip_height :
    (x h : ℕ) (skipped : List ℕ)
    → has_height x (skip_height h skipped) ≡ (x == h || has_height x skipped)
has_height-skip_height x h skipped = elim (Bool-cases (has_height h skipped)) [
  | inl old ↦ rw old (elim (Bool-cases (x == h)) [
    | inl same ↦ let e : x ≡ h = ground arith in rw (same, e) old
    | inr other ↦ rw other refl
  ])
  | inr new ↦ rw new refl
]

has_height-skip_upgrade_heights :
    (x : ℕ) (heights skipped : List ℕ)
    → has_height x (skip_upgrade_heights heights skipped)
      ≡ (has_height x heights || has_height x skipped)
unfolding skip_upgrade_heights
has_height-skip_upgrade_heights x [] skipped = refl
has_height-skip_upgrade_heights x (h ∷ heights) skipped =
    has_height-skip_upgrade_heights x heights (skip_height h skipped)
    ∙ ap (λ b. has_height x heights || b) (has_height-skip_height x h skipped)
    ∙ swap (has_height x heights) (x == h) (has_height x skipped)
  where
    swap : (a b c : Bool) → (a || (b || c)) ≡ ((b || a) || c)
    swap true true c = refl
    swap true false c = refl
    swap false true c = refl
    swap false false c = refl

or_false : (a : Bool) → (a || false) ≡ a
or_false true = refl
or_false false = refl

module _ {S Cfg AppKeepers K : Type 0} (uk : UpgradeKeeper S Cfg AppKeepers K)
    (mm : ModuleManager S Cfg AppKeepers) (configurator : Cfg) (keepers : AppKeepers)
    (heights : List ℕ)
    (skips : (h : ℕ) (k : K)
      → uk.is_skip_height h k ≡ has_height h (skip_upgrade_heights heights [])) where
  -- Where the upgrade keeper skips the heights that it was made with: a registration that succeeds
  -- leaves the store loader as it was, if the height of the plan on the disk is among those of the
  -- flag; if it is not, the loader is set for the first upgrade of the plan's name, or is as it was
  -- where there is none.
  pub register-skips :
      (app : App S Cfg AppKeepers K) {app' : App S Cfg AppKeepers K}
      → register_upgrade_handlers uk mm configurator keepers app ≡ ok app'
      → let upgrades = with_default app.upgrades app.version in
        (plan : Plan) × (uk.read_upgrade_info_from_disk app'.upgrade_keeper ≡ ok plan)
        × ((has_height plan.height heights ≡ true) × (app'.store_loader ≡ app.store_loader)
            ⊎ (has_height plan.height heights ≡ false)
              × (IsUnnamed plan.name upgrades × (app'.store_loader ≡ app.store_loader)
                  ⊎ FirstNamed plan upgrades app'.store_loader))
  register-skips app {app'} e =
      let (plan, read, cases) = register-store_loader uk mm configurator keepers app e in
      let listed : uk.is_skip_height plan.height app'.upgrade_keeper
          ≡ has_height plan.height heights =
        skips plan.height app'.upgrade_keeper
        ∙ has_height-skip_upgrade_heights plan.height heights []
        ∙ or_false (has_height plan.height heights) in
      (
        plan,
        read,
        elim cases [
          | inl (skipped, kept) ↦ inl (sym listed ∙ skipped, kept)
          | inr (due, loader) ↦ inr (sym listed ∙ due, loader)
        ],
      )
