-- ===== src/Wiring/Seals.antt =====
-- When a call of `NewChainApp` of app/app.go panics, whatever it is given: an order of the modules that
-- forgets one, and what the calls must not come after. A keeper, a router or the base
-- application that was sealed panics where it is called again, and so do hooks that are set twice.
use vector_chain.Prelude.{
  ◌==◌, ◌≡◌, Bool, true, false, not, ◌&&◌, ◌||◌, Option, none, some, List, [], ◌∷◌, if◌then◌else◌,
}
use vector_chain.Wiring.Places.{Place}
use vector_chain.Wiring.Calls.{Effect, Call, assign, perform, perform_logged}
use vector_chain.Wiring.Order.{effect_number}
use vector_chain.App.Modules.{Module}
use vector_chain.Wiring.Orders.{forgets_none, mentioned}
use vector_chain.Wiring.Ready.{and_left, and_right}

-- The effect after which the scope of a module can no longer be made.
abbrev pub place_barrier : Place → Option Effect
place_barrier Place.scoped_ibc = some Effect.seal_capabilities
place_barrier Place.scoped_ica_host = some Effect.seal_capabilities
place_barrier Place.scoped_ica_controller = some Effect.seal_capabilities
place_barrier Place.scoped_transfer = some Effect.seal_capabilities
place_barrier Place.scoped_wasm = some Effect.seal_capabilities
place_barrier _ = none

-- The effect after which another can no longer be had: the capabilities are sealed, the legacy router
-- is given to the governance keeper, the IBC router to the IBC keeper, the staking hooks are set, and
-- the base application has loaded a version.
abbrev pub barrier : Effect → Option Effect
barrier Effect.seal_capabilities = some Effect.seal_capabilities
barrier Effect.add_gov_route = some Effect.set_legacy_router
barrier Effect.add_params_route = some Effect.set_legacy_router
barrier Effect.set_legacy_router = some Effect.set_legacy_router
barrier Effect.add_transfer_route = some Effect.set_router
barrier Effect.add_wasm_route = some Effect.set_router
barrier Effect.add_ica_controller_route = some Effect.set_router
barrier Effect.add_ica_host_route = some Effect.set_router
barrier Effect.set_router = some Effect.set_router
barrier Effect.set_staking_hooks = some Effect.set_staking_hooks
barrier Effect.set_version = some Effect.load_latest_version
barrier Effect.set_param_store = some Effect.load_latest_version
barrier Effect.set_init_chainer = some Effect.load_latest_version
barrier Effect.set_pre_blocker = some Effect.load_latest_version
barrier Effect.set_begin_blocker = some Effect.load_latest_version
barrier Effect.set_end_blocker = some Effect.load_latest_version
barrier Effect.set_ante_handler = some Effect.load_latest_version
barrier Effect.set_post_handler = some Effect.load_latest_version
barrier Effect.load_latest_version = some Effect.load_latest_version
barrier _ = none

abbrev pub is_barrier : Effect → Bool
is_barrier Effect.seal_capabilities = true
is_barrier Effect.set_legacy_router = true
is_barrier Effect.set_router = true
is_barrier Effect.set_staking_hooks = true
is_barrier Effect.load_latest_version = true
is_barrier _ = false

-- The barriers that stand after an effect.
abbrev pub sealed_by : Effect → List Effect → List Effect
sealed_by e seals = if is_barrier e then e ∷ seals else seals

abbrev pub stands : Effect → List Effect → Bool
stands e [] = false
stands e (f ∷ seals) = effect_number e == effect_number f || stands e seals

abbrev pub clear : List Effect → Option Effect → Bool
clear seals none = true
clear seals (some e) = not (stands e seals)

-- No call comes after its barrier, and no order of the modules forgets one.
unfoldable pub lawful : List Effect → List Call → Bool
unfolding forgets_none
lawful seals [] = true
lawful seals (assign p as' _ ∷ cs) = clear seals (place_barrier p) && lawful seals cs
lawful seals (perform e as' _ ∷ cs) =
    forgets_none e (mentioned as') && (clear seals (barrier e) && lawful (sealed_by e seals) cs)
lawful seals (perform_logged e as' ∷ cs) =
    forgets_none e (mentioned as') && (clear seals (barrier e) && lawful (sealed_by e seals) cs)

-- The barriers that stand after the calls.
unfoldable pub seals_after : List Effect → List Call → List Effect
seals_after seals [] = seals
seals_after seals (assign p as' _ ∷ cs) = seals_after seals cs
seals_after seals (perform e as' _ ∷ cs) = seals_after (sealed_by e seals) cs
seals_after seals (perform_logged e as' ∷ cs) = seals_after (sealed_by e seals) cs

pub clear_first :
    (seals seals' : List Effect) (b : Option Effect) (cs : List Call)
    → (clear seals b && lawful seals' cs) ≡ true
    → (clear seals b ≡ true) × (lawful seals' cs ≡ true)
clear_first seals seals' b cs h =
    (and_left (clear seals b) (lawful seals' cs) h, and_right (clear seals b) (lawful seals' cs) h)

pub whole_first :
    (seals : List Effect) (e : Effect) (ms : List Module) (cs : List Call)
    → (forgets_none e ms && (clear seals (barrier e) && lawful (sealed_by e seals) cs)) ≡ true
    → (forgets_none e ms ≡ true)
      × (clear seals (barrier e) ≡ true)
      × (lawful (sealed_by e seals) cs ≡ true)
whole_first seals e ms cs h =
    let others = clear seals (barrier e) && lawful (sealed_by e seals) cs in
    let (free, later) =
      clear_first seals (sealed_by e seals) (barrier e) cs
        (and_right (forgets_none e ms) others h) in
    (and_left (forgets_none e ms) others h, free, later)
