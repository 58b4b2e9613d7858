-- ===== src/Ante/Build.antt =====
-- When app/ante.go builds a handler, and which option it complains about.
use vector_chain.Prelude.{
  ◌≡◌, ◌↔◌, refl, sym, String, text_append, Option, none, some, List, [], ◌∷◌, ◌++◌, Failure,
  Outcome, ok, fail, error, inl, inr, Option-cases, subst, ap, >>=-eq-ok, ok-injective, ◌>>=◌,
}
use vector_chain.Ante.{
  HandlerOptions, AnteDecorator, Required, require, check_options, ante_decorators,
  new_ante_handler, set_up_context, limit_simulation_gas, count_tx, gas_register, circuit_breaker,
  extension_options, validate_basic, tx_timeout_height, validate_memo, consume_gas_for_tx_size,
  deduct_fee, set_pub_key, validate_sig_count, sig_gas_consume, sig_verification,
  increment_sequence, redundant_relay,
}

module _ {A : Type 0} where
  abbrev unset : Option A → String → List String
  unset none what = what ∷ []
  unset (some a) what = []

-- The required options that are nil, in the order of their checks.
unfoldable pub missing : {R : Type 0} → HandlerOptions R → List String
missing o =
    unset o.account_keeper "account keeper"
    ++ (unset o.bank_keeper "bank keeper"
        ++ (unset o.sign_mode_handler "sign mode handler"
            ++ (unset o.wasm_config "wasm config"
                ++ (unset o.tx_counter_store_service "wasm store service"
                    ++ unset o.circuit_keeper "circuit keeper"))))

abbrev pub required_error : String → Failure
required_error what = error (text_append what " is required for ante builder")

-- The verdict of the checks, by the list of what is missing.
abbrev Verdict : {R : Type 0} → List String → Outcome (Required R) → Type 0
Verdict {R} [] r = (q : Required R) × (r ≡ ok q)
Verdict (what ∷ _) r = r ≡ fail (required_error what)

require-some :
    {A : Type 0} (x : Option A) (what : String) {a : A} → require x what ≡ ok a → x ≡ some a
require-some none what h = cc
require-some (some b) what h = ap some (ok-injective h)

module _ {R : Type 0} where
  check_options-Verdict : (o : HandlerOptions R) → Verdict (missing o) (check_options o)
  unfolding missing check_options
  check_options-Verdict o = elim (Option-cases o.account_keeper) [
    | inl e ↦ rw e
    | inr (_, e) ↦ rw e (elim (Option-cases o.bank_keeper) [
      | inl e ↦ rw e
      | inr (_, e) ↦ rw e (elim (Option-cases o.sign_mode_handler) [
        | inl e ↦ rw e
        | inr (_, e) ↦ rw e (elim (Option-cases o.wasm_config) [
          | inl e ↦ rw e
          | inr (_, e) ↦ rw e (elim (Option-cases o.tx_counter_store_service) [
            | inl e ↦ rw e
            | inr (_, e) ↦ rw e (elim (Option-cases o.circuit_keeper) [
              | inl e ↦ rw e
              | inr (_, e) ↦ rw e (_, refl)
            ])
          ])
        ])
      ])
    ])
  ]

  check_options_fails :
      (o : HandlerOptions R) (what : String) (rest : List String)
      → missing o ≡ what ∷ rest
      → check_options o ≡ fail (required_error what)
  check_options_fails o what rest h =
      subst (λ l. Verdict l (check_options o)) h (check_options-Verdict o)

  check_options_passes :
      (o : HandlerOptions R) → missing o ≡ [] → (q : Required R) × (check_options o ≡ ok q)
  check_options_passes o h = subst (λ l. Verdict l (check_options o)) h (check_options-Verdict o)

  -- The required options are those that were given.
  pub record AreFrom (o : HandlerOptions R) (q : Required R) : Type 0 where
    pub account : o.account_keeper ≡ some q.account_keeper
    pub bank : o.bank_keeper ≡ some q.bank_keeper
    pub sign_mode : o.sign_mode_handler ≡ some q.sign_mode_handler
    pub wasm : o.wasm_config ≡ some q.wasm_config
    pub counter : o.tx_counter_store_service ≡ some q.tx_counter_store_service
    pub circuit : o.circuit_keeper ≡ some q.circuit_keeper

  check_options-AreFrom :
      (o : HandlerOptions R) (q : Required R) → check_options o ≡ ok q → AreFrom o q
  unfolding check_options
  check_options-AreFrom o q h =
      let (a, e₁, f₁) = >>=-eq-ok (require o.account_keeper "account keeper") _ h in
      let (b, e₂, f₂) = >>=-eq-ok (require o.bank_keeper "bank keeper") _ f₁ in
      let (s, e₃, f₃) = >>=-eq-ok (require o.sign_mode_handler "sign mode handler") _ f₂ in
      let (w, e₄, f₄) = >>=-eq-ok (require o.wasm_config "wasm config") _ f₃ in
      let (t, e₅, f₅) = >>=-eq-ok (require o.tx_counter_store_service "wasm store service") _ f₄ in
      let (c, e₆, f₆) = >>=-eq-ok (require o.circuit_keeper "circuit keeper") _ f₅ in
      subst (AreFrom o) (ok-injective f₆) (record {
        account = require-some o.account_keeper _ e₁;
        bank = require-some o.bank_keeper _ e₂;
        sign_mode = require-some o.sign_mode_handler _ e₃;
        wasm = require-some o.wasm_config _ e₄;
        counter = require-some o.tx_counter_store_service _ e₅;
        circuit = require-some o.circuit_keeper _ e₆;
      })

module _ {R H : Type 0} (get_gas_register : Option R → Outcome R)
    (chain_ante_decorators : List (AnteDecorator R) → H) where
  -- An option that is required and nil makes the construction fail, with the error of the first
  -- such option in the order of the checks, whatever the other options are.
  pub new_ante_handler_reports :
      (o : HandlerOptions R) (what : String) (rest : List String)
      → missing o ≡ what ∷ rest
      → new_ante_handler get_gas_register chain_ante_decorators o ≡ fail (required_error what)
  unfolding new_ante_handler
  new_ante_handler_reports o what rest h = rw (check_options_fails o what rest h)

  -- With every required option set and a gas register from the wasm keeper, a handler is built, and
  -- it is the chain of the decorator list of those options and that register.
  pub new_ante_handler_builds :
      (o : HandlerOptions R) (register : R)
      → missing o ≡ []
      → get_gas_register o.wasm_keeper ≡ ok register
      → (q : Required R) × AreFrom o q
        × (new_ante_handler get_gas_register chain_ante_decorators o
            ≡ ok (chain_ante_decorators (ante_decorators o q register)))
  unfolding new_ante_handler
  new_ante_handler_builds o register h g =
      let (q, e) = check_options_passes o h in (q, check_options-AreFrom o q e, rw (e, g))

  -- A handler is built just where every option that is required is set and the wasm keeper has a gas
  -- register; it is the chain of the seventeen decorators of the SDK, of wasmd and of ibc-go, in their
  -- order, over the options that were given and that register.
  pub new_ante_handler_iff :
      (o : HandlerOptions R) (h : H)
      → (new_ante_handler get_gas_register chain_ante_decorators o ≡ ok h) ↔ (
          (q : Required R) × (register : R) × AreFrom o q
          × (get_gas_register o.wasm_keeper ≡ ok register)
          × (h
              ≡ chain_ante_decorators (
                  set_up_context
                  ∷ limit_simulation_gas q.wasm_config.simulation_gas_limit
                  ∷ count_tx q.tx_counter_store_service
                  ∷ gas_register register
                  ∷ circuit_breaker q.circuit_keeper
                  ∷ extension_options o.extension_option_checker
                  ∷ validate_basic
                  ∷ tx_timeout_height
                  ∷ validate_memo q.account_keeper
                  ∷ consume_gas_for_tx_size q.account_keeper
                  ∷ deduct_fee q.account_keeper q.bank_keeper o.feegrant_keeper o.tx_fee_checker
                  ∷ set_pub_key q.account_keeper
                  ∷ validate_sig_count q.account_keeper
                  ∷ sig_gas_consume q.account_keeper o.sig_gas_consumer
                  ∷ sig_verification q.account_keeper q.sign_mode_handler
                  ∷ increment_sequence q.account_keeper
                  ∷ redundant_relay o.ibc_keeper
                  ∷ [])))
  unfolding new_ante_handler check_options ante_decorators
  new_ante_handler_iff o h = (built, chained)
    where
      built :
          new_ante_handler get_gas_register chain_ante_decorators o ≡ ok h
          → (q : Required R) × (register : R) × AreFrom o q
            × (get_gas_register o.wasm_keeper ≡ ok register)
            × (h ≡ chain_ante_decorators (ante_decorators o q register))
      built e =
          let (q, e₁, f₁) =
            >>=-eq-ok (check_options o)
              (λ q. get_gas_register o.wasm_keeper >>= λ register.
                ok (chain_ante_decorators (ante_decorators o q register)))
              e in
          let (register, e₂, f₂) =
            >>=-eq-ok (get_gas_register o.wasm_keeper)
              (λ register. ok (chain_ante_decorators (ante_decorators o q register))) f₁ in
          (q, register, check_options-AreFrom o q e₁, e₂, sym (ok-injective f₂))

      chained :
          ((q : Required R) × (register : R) × AreFrom o q
            × (get_gas_register o.wasm_keeper ≡ ok register)
            × (h ≡ chain_ante_decorators (ante_decorators o q register)))
          → new_ante_handler get_gas_register chain_ante_decorators o ≡ ok h
      chained (q, register, from, g, same) =
          rw (from.account, from.bank, from.sign_mode, from.wasm, from.counter, from.circuit, g)
            (ap ok (sym same))
