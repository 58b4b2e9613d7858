-- ===== src/Wiring/Calls.antt =====
-- How `NewChainApp` of app/app.go is built up: a call of the SDK, the reading of its arguments, and
-- what it leaves. A call takes variables and fields that were assigned before, stores, subspaces,
-- and expressions that read none of these. A pointer that is not assigned is nil, a field that is
-- not assigned has its zero value; both are `nil` here.
use vector_chain.Prelude.{
  String, text_append, Bool, Option, none, some, List, [], ◌∷◌, if◌then◌else◌, error, panic,
  Outcome, ok, fail,
}
use vector_chain.Prelude.Results
use vector_chain.Prelude.Actions.{Action, ◌>>=◌, ◌>>◌, pure}
use vector_chain.App.Modules.{Module}
use vector_chain.Wiring.Places.{Place, same_place, params, kv_keys}
use vector_chain.Wiring.Stores.{
  Store, kv_store_keys, has_key, Subspace, init_params_keeper, has_subspace,
}

-- What is read through a pointer or an object: a field, or a getter's result.
pub data Part : Type 0 where
  channel_keeper port_keeper params_store hooks querier address_codec msg_service_router
        grpc_query_router sign_mode_handler tx_decoder tx_encoder modules commit_multi_store
        params_transient capability_memory :
      Part

-- The calls that are made for what they do to something else.
pub data Effect : Type 0 where
  register_legacy_amino_codec register_interfaces set_tracer set_version set_interface_registry
        set_tx_encoder register_streaming_services set_param_store seal_capabilities
        set_circuit_breaker set_staking_hooks add_gov_route add_params_route set_legacy_router
        set_transfer_keeper with_query_router add_transfer_route add_wasm_route
        add_ica_controller_route add_ica_host_route set_router basic_legacy_amino_codec
        basic_interfaces set_order_pre_blockers set_order_begin_blockers set_order_end_blockers
        set_order_init_genesis set_order_export_genesis register_invariants register_services
        register_auto_cli register_reflection register_store_decoders mount_kv_stores
        mount_transient_stores mount_memory_stores set_init_chainer set_pre_blocker
        set_begin_blocker set_end_blocker set_ante_handler register_extensions set_post_handler
        validate_proto_annotations load_latest_version initialize_pinned_codes :
      Effect

pub data Argument : Type 0 where
  place : Place → Argument
  part : Place → Part → Argument
  -- `keys[name]`, and `runtime.NewKVStoreService(keys[name])`
  kv_store : Store → Argument
  store_service : Store → Argument
  -- `app.GetSubspace(name)`
  subspace : Subspace → Argument
  -- the names of modules and of stores
  names : List Module → Argument
  stores : List Store → Argument
  -- an expression of the source that reads none of the above
  outside : String → Argument
  -- a nil that the source writes, as itself or as an interface variable that it never sets
  nil_literal : String → Argument

-- What a call is handed. What does not come of an assignment stands for itself.
pub data Value (K : Type 0) : Type 0 where
  nil : Value K
  object : K → Value K
  constant : Argument → Value K

-- An error that a call returns is a panic, with a prefix before its text that may be empty; or it is
-- written to the terminal and forgotten. Where the function has no error result, the prefix is
-- empty, and all that its outcome can be is a value or a panic.
pub data Call : Type 0 where
  assign : Place → List Argument → String → Call
  perform : Effect → List Argument → String → Call
  perform_logged : Effect → List Argument → Call

-- The functions of the SDK, of the modules and of the standard library. `K` is what they make, `S`
-- the rest of the process: the database, the base application and what hangs on it.
pub record Sdk (K S : Type 0) : Type 0 where
  pub make : Place → List (Value K) → Action S K
  pub act : Effect → List (Value K) → Action S (Unit {0})
  pub part_of : Part → K → K

-- What is assigned, the last first, and the rest.
pub record Built (K S : Type 0) : Type 0 where
  pub places : List (Place × K)
  pub rest : S

abbrev pub prefixed : {A : Type 0} → String → Outcome A → Outcome A
prefixed prefix (fail (error e)) = fail (panic (text_append prefix e))
prefixed prefix r = r

abbrev pub logged : Outcome (Unit {0}) → Outcome (Unit {0})
logged (fail (error e)) = ok tt
logged r = r

module _ {K : Type 0} where
  unfoldable pub find : Place → List (Place × K) → Option K
  find p [] = none
  find p ((q, k) ∷ ps) = if same_place p q then some k else find p ps

  abbrev pub found : Option K → Value K
  found none = nil
  found (some k) = object k

  abbrev pub read_part : (K → K) → Option K → Outcome (Value K)
  read_part f none = fail (panic "invalid memory address or nil pointer dereference")
  read_part f (some k) = ok (object (f k))

  -- An entry of a map that is assigned, or of a keeper.
  abbrev pub read_entry : Argument → Bool → Option K → Value K
  read_entry a listed none = nil
  read_entry a listed (some k) = if listed then constant a else nil

  module _ (part_of : Part → K → K) (ps : List (Place × K)) where
    unfoldable pub eval : Argument → Outcome (Value K)
    eval (place p) = ok (found (find p ps))
    eval (part p x) = read_part (part_of x) (find p ps)
    eval (kv_store s) = ok (read_entry (kv_store s) (has_key s kv_store_keys) (find kv_keys ps))
    eval (store_service s) =
        ok (read_entry (store_service s) (has_key s kv_store_keys) (find kv_keys ps))
    eval (subspace n) =
        ok (read_entry (subspace n) (has_subspace n init_params_keeper) (find params ps))
    eval (names ms) = ok (constant (names ms))
    eval (stores ss) = ok (constant (stores ss))
    eval (outside e) = ok (constant (outside e))
    eval (nil_literal e) = ok (constant (nil_literal e))

    unfoldable pub eval_all : List Argument → Outcome (List (Value K))
    unfolding eval
    eval_all [] = ok []
    eval_all (a ∷ as') =
        Results.◌>>=◌ (eval a) (λ v. Results.◌>>=◌ (eval_all as') (λ vs. ok (v ∷ vs)))

module _ {K S : Type 0} (sdk : Sdk K S) where
  -- The call itself: what it returns, and what it does to the rest.
  abbrev pub outside_call : {A : Type 0} → Action S A → Action (Built K S) A
  outside_call m b = let (r, s) = m b.rest in (r, record b { rest = s })

  abbrev pub set_place : Place → K → Action (Built K S) (Unit {0})
  set_place p k b = (ok tt, record b { places = (p, k) ∷ b.places })

  unfoldable pub arguments : List Argument → Action (Built K S) (List (Value K))
  arguments as' b = (eval_all sdk.part_of b.places as', b)

  -- A call whose error is a panic.
  abbrev pub guarded : {A : Type 0} → String → Action S A → Action (Built K S) A
  guarded prefix m = outside_call (λ s. let (r, s') = m s in (prefixed prefix r, s'))

  abbrev pub forgiven : Action S (Unit {0}) → Action (Built K S) (Unit {0})
  forgiven m = outside_call (λ s. let (r, s') = m s in (logged r, s'))

  abbrev pub make_place : Place → String → List (Value K) → Action (Built K S) (Unit {0})
  make_place p prefix values = guarded prefix (sdk.make p values) >>= set_place p

  unfoldable pub run_call : Call → Action (Built K S) (Unit {0})
  run_call (assign p as' prefix) = do values ← arguments as'; make_place p prefix values
  run_call (perform e as' prefix) = do values ← arguments as'; guarded prefix (sdk.act e values)
  run_call (perform_logged e as') = do values ← arguments as'; forgiven (sdk.act e values)

  unfoldable pub run_calls : List Call → Action (Built K S) (Unit {0})
  unfolding run_call
  run_calls [] = pure tt
  run_calls (c ∷ cs) = run_call c >> run_calls cs
