-- ===== src/Wiring/Order.antt =====
-- The order of the calls of `NewChainApp` of app/app.go, where the source says that one has to stand
-- before another.
use vector_chain.Prelude.{
  ℕ, ◌==◌, ◌≡◌, refl, Bool, true, false, List, [], ◌∷◌, Precedes, precedes, precedes→Precedes, All,
}
use vector_chain.Wiring.Places.{Place, same_place}
use vector_chain.Wiring.Calls.{Effect, Call, assign, perform, perform_logged}
use vector_chain.Wiring.ChainCalls.{chain_app_calls}

abbrev pub effect_number : Effect → ℕ
effect_number Effect.register_legacy_amino_codec = 0
effect_number Effect.register_interfaces = 1
effect_number Effect.set_tracer = 2
effect_number Effect.set_version = 3
effect_number Effect.set_interface_registry = 4
effect_number Effect.set_tx_encoder = 5
effect_number Effect.register_streaming_services = 6
effect_number Effect.set_param_store = 7
effect_number Effect.seal_capabilities = 8
effect_number Effect.set_circuit_breaker = 9
effect_number Effect.set_staking_hooks = 10
effect_number Effect.add_gov_route = 11
effect_number Effect.add_params_route = 12
effect_number Effect.set_legacy_router = 13
effect_number Effect.set_transfer_keeper = 14
effect_number Effect.with_query_router = 15
effect_number Effect.add_transfer_route = 16
effect_number Effect.add_wasm_route = 17
effect_number Effect.add_ica_controller_route = 18
effect_number Effect.add_ica_host_route = 19
effect_number Effect.set_router = 20
effect_number Effect.basic_legacy_amino_codec = 21
effect_number Effect.basic_interfaces = 22
effect_number Effect.set_order_pre_blockers = 23
effect_number Effect.set_order_begin_blockers = 24
effect_number Effect.set_order_end_blockers = 25
effect_number Effect.set_order_init_genesis = 26
effect_number Effect.set_order_export_genesis = 27
effect_number Effect.register_invariants = 28
effect_number Effect.register_services = 29
effect_number Effect.register_auto_cli = 30
effect_number Effect.register_reflection = 31
effect_number Effect.register_store_decoders = 32
effect_number Effect.mount_kv_stores = 33
effect_number Effect.mount_transient_stores = 34
effect_number Effect.mount_memory_stores = 35
effect_number Effect.set_init_chainer = 36
effect_number Effect.set_pre_blocker = 37
effect_number Effect.set_begin_blocker = 38
effect_number Effect.set_end_blocker = 39
effect_number Effect.set_ante_handler = 40
effect_number Effect.register_extensions = 41
effect_number Effect.set_post_handler = 42
effect_number Effect.validate_proto_annotations = 43
effect_number Effect.load_latest_version = 44
effect_number Effect.initialize_pinned_codes = 45

-- The call assigns the place.
abbrev pub assigns : Place → Call → Bool
assigns p (assign q as' _) = same_place p q
assigns p (perform e as' _) = false
assigns p (perform_logged e as') = false

abbrev pub performs : Effect → Call → Bool
performs e (assign q as' _) = false
performs e (perform f as' _) = effect_number e == effect_number f
performs e (perform_logged f as') = effect_number e == effect_number f

All-Precedes :
    {A : Type 0} (before : A → Call → Bool) (q : Call → Bool) (calls : List Call) (xs : List A)
    → All (λ x. precedes (before x) q calls ≡ true) xs
    → All (λ x. Precedes (before x) q calls) xs
All-Precedes before q calls [] h = tt
All-Precedes before q calls (x ∷ xs) h =
    (precedes→Precedes (before x) q calls h.0, All-Precedes before q calls xs h.1)

abbrev pub scopes : List Place
scopes =
    Place.scoped_ibc ∷ Place.scoped_ica_host ∷ Place.scoped_ica_controller ∷ Place.scoped_transfer
    ∷ Place.scoped_wasm ∷ []

abbrev pub routes : List Effect
routes =
    Effect.add_transfer_route ∷ Effect.add_wasm_route ∷ Effect.add_ica_controller_route
    ∷ Effect.add_ica_host_route ∷ []

abbrev pub set_ups : List Effect
set_ups =
    Effect.mount_kv_stores ∷ Effect.mount_transient_stores ∷ Effect.mount_memory_stores
    ∷ Effect.set_init_chainer ∷ Effect.set_pre_blocker ∷ Effect.set_begin_blocker
    ∷ Effect.set_end_blocker ∷ Effect.set_post_handler ∷ []

-- The orders that hold of the calls of a run.
abbrev pub InOrder : List Call → Type 0
InOrder calls =
    All (λ p. Precedes (assigns p) (performs Effect.seal_capabilities) calls) scopes
    × All (λ e. Precedes (performs e) (performs Effect.set_router) calls) routes
    × All (λ e. Precedes (performs e) (performs Effect.load_latest_version) calls) set_ups
    × Precedes (performs Effect.set_order_init_genesis) (performs Effect.register_services) calls

-- The same, by one pass over the calls for each.
abbrev Passes : List Call → Type 0
Passes calls =
    All (λ p. precedes (assigns p) (performs Effect.seal_capabilities) calls ≡ true) scopes
    × All (λ e. precedes (performs e) (performs Effect.set_router) calls ≡ true) routes
    × All (λ e. precedes (performs e) (performs Effect.load_latest_version) calls ≡ true) set_ups
    × (precedes (performs Effect.set_order_init_genesis) (performs Effect.register_services) calls
        ≡ true)

Passes→InOrder : (calls : List Call) → Passes calls → InOrder calls
Passes→InOrder calls (sealed, routed, set_up, ordered) = (
  All-Precedes assigns (performs Effect.seal_capabilities) calls scopes sealed,
  All-Precedes performs (performs Effect.set_router) calls routes routed,
  All-Precedes performs (performs Effect.load_latest_version) calls set_ups set_up,
  precedes→Precedes _ _ calls ordered,
)

chain_app_calls-Passes :
    (snapshots load_latest : Bool) → Passes (chain_app_calls snapshots load_latest)
unfolding chain_app_calls precedes
chain_app_calls-Passes true true = (
  (refl, (refl, (refl, (refl, (refl, tt))))),
  (refl, (refl, (refl, (refl, tt)))),
  (refl, (refl, (refl, (refl, (refl, (refl, (refl, (refl, tt)))))))),
  refl,
)
chain_app_calls-Passes true false = (
  (refl, (refl, (refl, (refl, (refl, tt))))),
  (refl, (refl, (refl, (refl, tt)))),
  (refl, (refl, (refl, (refl, (refl, (refl, (refl, (refl, tt)))))))),
  refl,
)
chain_app_calls-Passes false true = (
  (refl, (refl, (refl, (refl, (refl, tt))))),
  (refl, (refl, (refl, (refl, tt)))),
  (refl, (refl, (refl, (refl, (refl, (refl, (refl, (refl, tt)))))))),
  refl,
)
chain_app_calls-Passes false false = (
  (refl, (refl, (refl, (refl, (refl, tt))))),
  (refl, (refl, (refl, (refl, tt)))),
  (refl, (refl, (refl, (refl, (refl, (refl, (refl, (refl, tt)))))))),
  refl,
)

-- Whether there are snapshots, and whether the latest version is loaded: the capabilities are sealed
-- once the five modules have their scopes, the IBC router is set once it has its four routes, and the
-- latest version is loaded once the stores are mounted and the methods of the base application are
-- set; the modules have their genesis order before their services are registered.
pub chain_app_calls-InOrder :
    (snapshots load_latest : Bool) → InOrder (chain_app_calls snapshots load_latest)
chain_app_calls-InOrder snapshots load_latest =
    Passes→InOrder (chain_app_calls snapshots load_latest)
      (chain_app_calls-Passes snapshots load_latest)
