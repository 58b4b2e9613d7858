-- ===== src/Ante.antt =====
-- app/ante.go: the options of the ante handler and its construction. A keeper, a service or a
-- function that the options carry is a reference: the code tests whether it is nil and passes it
-- on, so one type `R` stands for all of them, and `none` is nil.
pub mod Build
pub mod Order
use vector_chain.Prelude.{
  ℕ, String, text_append, Bool, true, false, Option, none, some, List, [], ◌∷◌, if◌then◌else◌,
  Outcome, ok, fail, error, ◌>>=◌, ◌>>◌,
}

-- `wasmtypes.WasmConfig`, as far as the code reads it.
pub record WasmConfig : Type 0 where
  pub simulation_gas_limit : Option ℕ

pub record HandlerOptions (R : Type 0) : Type 0 where
  -- the embedded options of the SDK
  pub account_keeper : Option R
  pub bank_keeper : Option R
  pub extension_option_checker : Option R
  pub feegrant_keeper : Option R
  pub sign_mode_handler : Option R
  pub sig_gas_consumer : Option R
  pub tx_fee_checker : Option R
  -- those of the chain
  pub ibc_keeper : Option R
  pub wasm_config : Option WasmConfig
  pub wasm_keeper : Option R
  pub tx_counter_store_service : Option R
  pub circuit_keeper : Option R
  pub bypass_min_fee_msg_types : List String

-- The decorators that the chain of ante.go is made of, with the arguments of their constructors.
pub data AnteDecorator (R : Type 0) : Type 0 where
  set_up_context : AnteDecorator R
  limit_simulation_gas : Option ℕ → AnteDecorator R
  count_tx : R → AnteDecorator R
  gas_register : R → AnteDecorator R
  circuit_breaker : R → AnteDecorator R
  extension_options : Option R → AnteDecorator R
  validate_basic : AnteDecorator R
  tx_timeout_height : AnteDecorator R
  validate_memo : R → AnteDecorator R
  consume_gas_for_tx_size : R → AnteDecorator R
  deduct_fee : R → R → Option R → Option R → AnteDecorator R
  set_pub_key : R → AnteDecorator R
  validate_sig_count : R → AnteDecorator R
  sig_gas_consume : R → Option R → AnteDecorator R
  sig_verification : R → R → AnteDecorator R
  increment_sequence : R → AnteDecorator R
  redundant_relay : Option R → AnteDecorator R

module _ {A : Type 0} where
  -- `if x == nil { return nil, errors.New(...) }`
  abbrev pub require : Option A → String → Outcome A
  require none what = fail (error (text_append what " is required for ante builder"))
  require (some a) what = ok a

-- What the checks of `NewAnteHandler` leave: the options that are not nil.
pub record Required (R : Type 0) : Type 0 where
  pub account_keeper : R
  pub bank_keeper : R
  pub sign_mode_handler : R
  pub wasm_config : WasmConfig
  pub tx_counter_store_service : R
  pub circuit_keeper : R

module _ {R : Type 0} where
  -- The checks, in the code's order.
  unfoldable pub check_options : HandlerOptions R → Outcome (Required R)
  check_options options = do
    account_keeper ← require options.account_keeper "account keeper"
    bank_keeper ← require options.bank_keeper "bank keeper"
    sign_mode_handler ← require options.sign_mode_handler "sign mode handler"
    wasm_config ← require options.wasm_config "wasm config"
    tx_counter_store_service ← require options.tx_counter_store_service "wasm store service"
    circuit_keeper ← require options.circuit_keeper "circuit keeper"
    ok (record {
      account_keeper = account_keeper;
      bank_keeper = bank_keeper;
      sign_mode_handler = sign_mode_handler;
      wasm_config = wasm_config;
      tx_counter_store_service = tx_counter_store_service;
      circuit_keeper = circuit_keeper;
    })

  -- The list of decorators. The register is what `GetGasRegister` returns.
  unfoldable pub ante_decorators : HandlerOptions R → Required R → R → List (AnteDecorator R)
  ante_decorators options required register =
      set_up_context
      ∷ limit_simulation_gas required.wasm_config.simulation_gas_limit
      ∷ count_tx required.tx_counter_store_service
      ∷ gas_register register
      ∷ circuit_breaker required.circuit_keeper
      ∷ extension_options options.extension_option_checker
      ∷ validate_basic
      ∷ tx_timeout_height
      ∷ validate_memo required.account_keeper
      ∷ consume_gas_for_tx_size required.account_keeper
      ∷ deduct_fee required.account_keeper required.bank_keeper options.feegrant_keeper
          options.tx_fee_checker
      ∷ set_pub_key required.account_keeper
      ∷ validate_sig_count required.account_keeper
      ∷ sig_gas_consume required.account_keeper options.sig_gas_consumer
      ∷ sig_verification required.account_keeper required.sign_mode_handler
      ∷ increment_sequence required.account_keeper
      ∷ redundant_relay options.ibc_keeper
      ∷ []

-- `GetGasRegister` is a method of the wasm keeper, which no check tests for nil.
module _ {R H : Type 0} (get_gas_register : Option R → Outcome R)
    (chain_ante_decorators : List (AnteDecorator R) → H) where
  unfoldable pub new_ante_handler : HandlerOptions R → Outcome H
  unfolding check_options ante_decorators
  new_ante_handler options = do
    required ← check_options options
    register ← get_gas_register options.wasm_keeper
    ok (chain_ante_decorators (ante_decorators options required register))
