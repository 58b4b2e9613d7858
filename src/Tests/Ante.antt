-- ===== src/Tests/Ante.antt =====
-- The ante handler with every option, and with two of them missing.
use vector_chain.Prelude.{
  ℕ, ◌≡◌, ◌↔◌, refl, not, Option, none, some, List, [], ◌∷◌, Outcome, ok, fail, Precedes,
}
use vector_chain.Ante.{HandlerOptions, AnteDecorator, Required, ante_decorators, new_ante_handler}
use vector_chain.Ante.Build.{
  missing, required_error, AreFrom, new_ante_handler_reports, new_ante_handler_builds,
  new_ante_handler_iff,
}
use vector_chain.Ante.Order.{
  is_set_up, is_validate_basic, is_deduct_fee, is_set_pub_key, reads_pub_key, is_sig_verification,
  is_increment_sequence, ante_decorators-Precedes,
}

abbrev full : HandlerOptions ℕ
full = record {
  account_keeper = some 1;
  bank_keeper = some 2;
  extension_option_checker = none;
  feegrant_keeper = some 3;
  sign_mode_handler = some 4;
  sig_gas_consumer = some 5;
  tx_fee_checker = none;
  ibc_keeper = some 6;
  wasm_config = some (record { simulation_gas_limit = none });
  wasm_keeper = some 7;
  tx_counter_store_service = some 8;
  circuit_keeper = some 9;
  bypass_min_fee_msg_types = [];
}

abbrev without_two : HandlerOptions ℕ
without_two = record full { bank_keeper = none; circuit_keeper = none }

abbrev gas_register : Option ℕ → Outcome ℕ
gas_register o = ok 10

abbrev chain : List (AnteDecorator ℕ) → List (AnteDecorator ℕ)
chain ds = ds

without_two-missing : missing without_two ≡ "bank keeper" ∷ "circuit keeper" ∷ []
unfolding missing
without_two-missing = refl

full-missing : missing full ≡ []
unfolding missing
full-missing = refl

new_ante_handler_reports_example :
    new_ante_handler gas_register chain without_two ≡ fail (required_error "bank keeper")
new_ante_handler_reports_example =
    new_ante_handler_reports gas_register chain without_two "bank keeper" ("circuit keeper" ∷ [])
      without_two-missing

new_ante_handler_builds_applied :
    (q : Required ℕ) × AreFrom full q
    × (new_ante_handler gas_register chain full ≡ ok (ante_decorators full q 10))
new_ante_handler_builds_applied =
    new_ante_handler_builds gas_register chain full 10 full-missing refl

abbrev given : Required ℕ
given = record {
  account_keeper = 1;
  bank_keeper = 2;
  sign_mode_handler = 4;
  wasm_config = record { simulation_gas_limit = none };
  tx_counter_store_service = 8;
  circuit_keeper = 9;
}

new_ante_handler_iff_example :
    (new_ante_handler gas_register chain full ≡ ok (ante_decorators full given 10)) ↔ (
      (q : Required ℕ) × (register : ℕ) × AreFrom full q
      × (gas_register full.wasm_keeper ≡ ok register)
      × (ante_decorators full given 10 ≡ ante_decorators full q register))
unfolding ante_decorators
new_ante_handler_iff_example =
    new_ante_handler_iff gas_register chain full (ante_decorators full given 10)

ante_decorators-Precedes_example :
    let ds = ante_decorators full given 10 in
    Precedes is_set_up (λ d. not (is_set_up d)) ds
    × Precedes is_validate_basic is_deduct_fee ds
    × Precedes is_deduct_fee is_set_pub_key ds
    × Precedes is_set_pub_key reads_pub_key ds
    × Precedes is_sig_verification is_increment_sequence ds
ante_decorators-Precedes_example = ante_decorators-Precedes full given 10
