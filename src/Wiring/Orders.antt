-- ===== src/Wiring/Orders.antt =====
-- What an order of the modules has to name: `SetOrderBeginBlockers` and the like of the module manager
-- panic where a module of the manager that has the method is not among the names.
use vector_chain.Prelude.{
  ◌≡◌, refl, sym, ap, ◌∙◌, Bool, true, false, ◌&&◌, ◌||◌, Option, none, some, List, [], ◌∷◌, ◌++◌,
  if◌then◌else◌, Outcome, ok, fail, ok-injective, >>=-eq-ok,
}
use vector_chain.App.Modules.{Module, same_module, module_manager}
use vector_chain.Wiring.Places.{Place, kv_keys, params}
use vector_chain.Wiring.Stores.{kv_store_keys, has_key, init_params_keeper, has_subspace}
use vector_chain.Wiring.Calls.{
  Part, Effect, Argument, place, part, kv_store, store_service, subspace, names, stores, outside,
  nil_literal, Value, nil, object, constant, found, read_part, read_entry, find, eval, eval_all,
}

abbrev pub is_among : Module → List Module → Bool
is_among m [] = false
is_among m (n ∷ ms) = same_module m n || is_among m ms

-- The modules of the manager that have no method for an order: no hook before the block, no hook at its
-- beginning, none at its end, no genesis.
abbrev pub without : Effect → List Module
without Effect.set_order_pre_blockers =
    Module.genutil ∷ Module.auth ∷ Module.vesting ∷ Module.bank ∷ Module.feegrant ∷ Module.gov
    ∷ Module.mint ∷ Module.slashing ∷ Module.distribution ∷ Module.staking ∷ Module.evidence
    ∷ Module.params ∷ Module.authz ∷ Module.group ∷ Module.nft ∷ Module.consensus ∷ Module.circuit
    ∷ Module.capability ∷ Module.wasm ∷ Module.ibc ∷ Module.transfer ∷ Module.ibc_fee
    ∷ Module.interchain_accounts ∷ Module.ibc_tm ∷ Module.crisis ∷ Module.token_factory
    ∷ Module.packet_forward ∷ Module.rate_limit ∷ []
without Effect.set_order_begin_blockers =
    Module.auth ∷ Module.vesting ∷ Module.bank ∷ Module.feegrant ∷ Module.gov ∷ Module.upgrade
    ∷ Module.params ∷ Module.group ∷ Module.nft ∷ Module.consensus ∷ Module.circuit ∷ Module.ibc_tm
    ∷ Module.crisis ∷ []
without Effect.set_order_end_blockers =
    Module.auth ∷ Module.vesting ∷ Module.bank ∷ Module.mint ∷ Module.slashing ∷ Module.distribution
    ∷ Module.upgrade ∷ Module.evidence ∷ Module.params ∷ Module.authz ∷ Module.nft
    ∷ Module.consensus ∷ Module.circuit ∷ Module.ibc_tm ∷ []
without Effect.set_order_init_genesis = Module.ibc_tm ∷ []
without Effect.set_order_export_genesis = Module.ibc_tm ∷ []
without _ = []

abbrev pub is_order : Effect → Bool
is_order Effect.set_order_pre_blockers = true
is_order Effect.set_order_begin_blockers = true
is_order Effect.set_order_end_blockers = true
is_order Effect.set_order_init_genesis = true
is_order Effect.set_order_export_genesis = true
is_order _ = false

abbrev pub covers : List Module → List Module → List Module → Bool
covers skipped named_modules [] = true
covers skipped named_modules (m ∷ ms) =
    (is_among m skipped || is_among m named_modules) && covers skipped named_modules ms

-- An order names each module that has its method.
unfoldable pub forgets_none : Effect → List Module → Bool
unfolding module_manager
forgets_none e ms = if is_order e then covers (without e) ms module_manager else true

-- The modules that an argument, or a value, names.
abbrev pub mention : Argument → List Module
mention (place p) = []
mention (part p x) = []
mention (kv_store s) = []
mention (store_service s) = []
mention (subspace n) = []
mention (names ms) = ms
mention (stores ss) = []
mention (outside e) = []
mention (nil_literal e) = []

abbrev pub mentioned : List Argument → List Module
mentioned [] = []
mentioned (a ∷ as') = mention a ++ mentioned as'

module _ {K : Type 0} where
  abbrev named : Value K → List Module
  named nil = []
  named (object k) = []
  named (constant a) = mention a

  abbrev pub all_named : List (Value K) → List Module
  all_named [] = []
  all_named (v ∷ vs) = named v ++ all_named vs

  abbrev named_by : Outcome (Value K) → List Module
  named_by (ok v) = named v
  named_by (fail x) = []

  named-found : (o : Option K) → named (found o) ≡ []
  named-found none = refl
  named-found (some k) = refl

  named_by-read_part : (f : K → K) (o : Option K) → named_by (read_part f o) ≡ []
  named_by-read_part f none = refl
  named_by-read_part f (some k) = refl

  named-read_entry :
      (a : Argument) → mention a ≡ [] → (b : Bool) (o : Option K) → named (read_entry a b o) ≡ []
  named-read_entry a h b none = refl
  named-read_entry a h true (some k) = h
  named-read_entry a h false (some k) = refl

  module _ (part_of : Part → K → K) (ps : List (Place × K)) where
    named_by-eval : (a : Argument) → named_by (eval part_of ps a) ≡ mention a
    unfolding eval
    named_by-eval (place p) = named-found (find p ps)
    named_by-eval (part p x) = named_by-read_part (part_of x) (find p ps)
    named_by-eval (kv_store s) =
        named-read_entry (kv_store s) refl (has_key s kv_store_keys) (find kv_keys ps)
    named_by-eval (store_service s) =
        named-read_entry (store_service s) refl (has_key s kv_store_keys) (find kv_keys ps)
    named_by-eval (subspace n) =
        named-read_entry (subspace n) refl (has_subspace n init_params_keeper) (find params ps)
    named_by-eval (names ms) = refl
    named_by-eval (stores ss) = refl
    named_by-eval (outside e) = refl
    named_by-eval (nil_literal e) = refl

    -- The values of the arguments name what the arguments name.
    pub all_named-eval_all :
        (as' : List Argument) (vs : List (Value K))
        → eval_all part_of ps as' ≡ ok vs
        → all_named vs ≡ mentioned as'
    unfolding eval_all
    all_named-eval_all [] vs e = sym (ap all_named (ok-injective e))
    all_named-eval_all (a ∷ as') vs e =
        let (v, e₁, f) = >>=-eq-ok (eval part_of ps a) _ e in
        let (vs', e₂, g) = >>=-eq-ok (eval_all part_of ps as') (λ vs. ok (v ∷ vs)) f in
        let first : named v ≡ mention a = sym (ap named_by e₁) ∙ named_by-eval a in
        sym (ap all_named (ok-injective g))
        ∙ ap (λ ms. ms ++ all_named vs') first
        ∙ ap (λ ms. mention a ++ ms) (all_named-eval_all as' vs' e₂)
