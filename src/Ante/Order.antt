-- ===== src/Ante/Order.antt =====
-- The order of the decorators of app/ante.go.
use vector_chain.Prelude.{refl, Bool, true, false, not, Precedes, precedes, precedes→Precedes}
use vector_chain.Ante.{
  HandlerOptions, Required, AnteDecorator, set_up_context, validate_basic, deduct_fee, set_pub_key,
  validate_sig_count, sig_gas_consume, sig_verification, increment_sequence, ante_decorators,
}

module _ {R : Type 0} where
  abbrev pub is_set_up : AnteDecorator R → Bool
  is_set_up set_up_context = true
  is_set_up _ = false

  abbrev pub is_validate_basic : AnteDecorator R → Bool
  is_validate_basic validate_basic = true
  is_validate_basic _ = false

  abbrev pub is_deduct_fee : AnteDecorator R → Bool
  is_deduct_fee (deduct_fee a b f t) = true
  is_deduct_fee _ = false

  abbrev pub is_set_pub_key : AnteDecorator R → Bool
  is_set_pub_key (set_pub_key a) = true
  is_set_pub_key _ = false

  -- The decorators that read the public keys of the signers.
  abbrev pub reads_pub_key : AnteDecorator R → Bool
  reads_pub_key (validate_sig_count a) = true
  reads_pub_key (sig_gas_consume a c) = true
  reads_pub_key (sig_verification a s) = true
  reads_pub_key _ = false

  abbrev pub is_sig_verification : AnteDecorator R → Bool
  is_sig_verification (sig_verification a s) = true
  is_sig_verification _ = false

  abbrev pub is_increment_sequence : AnteDecorator R → Bool
  is_increment_sequence (increment_sequence a) = true
  is_increment_sequence _ = false

  -- For any options: the context is set up before every other decorator, the transaction is
  -- validated before its fee is taken, the fee is taken before the public keys are set, the keys are
  -- set before every decorator that reads them, and the signatures are verified before a sequence
  -- number is incremented.
  pub ante_decorators-Precedes :
      (o : HandlerOptions R) (q : Required R) (register : R)
      → let ds = ante_decorators o q register in
        Precedes is_set_up (λ d. not (is_set_up d)) ds
        × Precedes is_validate_basic is_deduct_fee ds
        × Precedes is_deduct_fee is_set_pub_key ds
        × Precedes is_set_pub_key reads_pub_key ds
        × Precedes is_sig_verification is_increment_sequence ds
  unfolding ante_decorators precedes
  ante_decorators-Precedes o q register = (
    precedes→Precedes is_set_up (λ d. not (is_set_up d)) _ refl,
    precedes→Precedes is_validate_basic is_deduct_fee _ refl,
    precedes→Precedes is_deduct_fee is_set_pub_key _ refl,
    precedes→Precedes is_set_pub_key reads_pub_key _ refl,
    precedes→Precedes is_sig_verification is_increment_sequence _ refl,
  )
