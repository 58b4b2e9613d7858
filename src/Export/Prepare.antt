-- ===== src/Export/Prepare.antt =====
-- `prepForZeroHeightGenesis` of app/export.go, one definition for each part of its body, in its
-- order. The fee pool is its community pool, the only field of it that the code touches.
use vector_chain.Prelude.{
  ℕ, String, Bool, true, false, not, ◌&&◌, List, [], ◌∷◌, map, contains, if◌then◌else◌, Outcome, ok,
  fail, error, panic, fatal, ◌>>=◌, or_panic, or_fatal, text_append,
}
use vector_chain.Export.{
  Bytes, Entry, Redelegation, UnbondingDelegation, Delegation, Validator, SigningInfo, Callback,
  Keepers,
}

-- `if err := ...; err != nil { panic(fmt.Errorf("...: %w", err)) }`
abbrev pub or_panic_with : {A : Type 0} → String → Outcome A → Outcome A
or_panic_with prefix (fail (error e)) = fail (panic (text_append prefix e))
or_panic_with prefix r = r

-- `_, _ = f()`: a returned error is dropped, a panic is not.
abbrev pub drop_error : {S : Type 0} → Outcome (Unit {0}) × S → Outcome S
drop_error (ok _, s) = ok s
drop_error (fail (error e), s) = ok s
drop_error (fail (panic e), s) = fail (panic e)
drop_error (fail (fatal e), s) = fail (fatal e)

-- The end of a callback: `return false`.
abbrev pub go_on : {S : Type 0} → Outcome S → Outcome (Bool × S)
go_on r = do s ← r; ok (false, s)

abbrev pub zero_height : Entry → Entry
zero_height e = record e { creation_height = 0 }

-- `for i := range red.Entries { red.Entries[i].CreationHeight = 0 }`
unfoldable pub reset_redelegation : Redelegation → Redelegation
reset_redelegation red = record red { entries = map zero_height red.entries }

unfoldable pub reset_unbonding_delegation : UnbondingDelegation → UnbondingDelegation
reset_unbonding_delegation ubd = record ubd { entries = map zero_height ubd.entries }

module _ {S Coins : Type 0} (k : Keepers S Coins) where
  -- The loop over `jailAllowedAddrs`: the keys of `allowedAddrsMap`, or the end of the process at
  -- the first text that is no validator address.
  unfoldable pub allowed_addrs : List String → Outcome (List String)
  allowed_addrs [] = ok []
  allowed_addrs (addr ∷ addrs) = do
    _ ← or_fatal (k.val_address_from_bech32 addr)
    rest ← allowed_addrs addrs
    ok (addr ∷ rest)

  unfoldable pub withdraw_commission : ℕ → Callback S Validator
  withdraw_commission height val s = do
    val_bz ← or_panic (k.validator_address_codec val.operator_address)
    go_on (drop_error (k.withdraw_validator_commission val_bz height s))

  unfoldable pub withdraw_rewards : List Delegation → ℕ → S → Outcome S
  withdraw_rewards [] height s = ok s
  withdraw_rewards (delegation ∷ dels) height s = do
    val_addr ← or_panic (k.val_address_from_bech32 delegation.validator_address)
    del_addr ← k.must_acc_address_from_bech32 delegation.delegator_address
    s' ← or_panic (k.withdraw_delegation_rewards del_addr val_addr height s)
    withdraw_rewards dels height s'

  unfoldable pub reinit_validator : ℕ → Callback S Validator
  reinit_validator height val s = do
    val_bz ← or_panic (k.validator_address_codec val.operator_address)
    scraps ← or_panic (k.get_validator_outstanding_rewards_coins val_bz height s)
    fee_pool ← or_panic (k.fee_pool_get height s)
    s₁ ← or_panic (k.fee_pool_set (k.add_coins fee_pool scraps) height s)
    go_on (or_panic (k.after_validator_created val_bz height s₁))

  unfoldable pub reinit_delegations : List Delegation → ℕ → S → Outcome S
  reinit_delegations [] height s = ok s
  reinit_delegations (del ∷ dels) height s = do
    val_addr ← or_panic (k.val_address_from_bech32 del.validator_address)
    del_addr ← k.must_acc_address_from_bech32 del.delegator_address
    s₁ ←
        or_panic_with "error while incrementing period: "
          (k.before_delegation_created del_addr val_addr height s)
    s₂ ←
        or_panic_with "error while creating a new delegation period record: "
          (k.after_delegation_modified del_addr val_addr height s₁)
    reinit_delegations dels height s₂

  unfoldable pub reset_redelegations : ℕ → Callback S Redelegation
  unfolding reset_redelegation
  reset_redelegations height red s =
      go_on (or_panic (k.set_redelegation (reset_redelegation red) height s))

  unfoldable pub reset_unbonding_delegations : ℕ → Callback S UnbondingDelegation
  unfolding reset_unbonding_delegation
  reset_unbonding_delegations height ubd s =
      go_on (or_panic (k.set_unbonding_delegation (reset_unbonding_delegation ubd) height s))

  -- What the loop over the validators does to one, at the address of its key.
  unfoldable pub reset_validator : List String → Bytes → Validator → Validator
  reset_validator allowed addr validator =
      let jail = apply_allowed allowed && not (contains (k.val_address_string addr) allowed) in
      record validator { unbonding_height = 0; jailed = if jail then true else validator.jailed }
    where
      apply_allowed : List String → Bool
      apply_allowed [] = false
      apply_allowed (_ ∷ _) = true

  abbrev pub expect_validator : Outcome Validator → Outcome Validator
  expect_validator (fail (error e)) = fail (panic "expected validator, not found")
  expect_validator r = r

  unfoldable pub reset_validators : List String → List Bytes → ℕ → S → Outcome S
  unfolding reset_validator
  reset_validators allowed [] height s = ok s
  reset_validators allowed (addr ∷ addrs) height s = do
    validator ← expect_validator (k.get_validator addr height s)
    s' ← or_panic (k.set_validator (reset_validator allowed addr validator) height s)
    reset_validators allowed addrs height s'

  unfoldable pub reset_signing_info : ℕ → Callback S (Bytes × SigningInfo)
  reset_signing_info height (addr, info) s =
      go_on
        (or_panic (k.set_validator_signing_info addr (record info { start_height = 0 }) height s))

  -- The part on the distribution state, at height 0.
  unfoldable pub prep_distribution : S → Outcome S
  unfolding withdraw_commission withdraw_rewards reinit_validator reinit_delegations
  prep_distribution s = do
    s₁ ← or_panic (k.iterate_validators (withdraw_commission 0) 0 s)
    dels ← or_panic (k.get_all_delegations 0 s₁)
    s₂ ← withdraw_rewards dels 0 s₁
    let s₃ = k.delete_all_validator_slash_events 0 s₂
    let s₄ = k.delete_all_validator_historical_rewards 0 s₃
    s₅ ← or_panic (k.iterate_validators (reinit_validator 0) 0 s₄)
    reinit_delegations dels 0 s₅

  -- The part on the staking state up to the end of the loop over the validators.
  unfoldable pub prep_staking : List String → ℕ → S → Outcome S
  unfolding reset_redelegations reset_unbonding_delegations reset_validators
  prep_staking allowed height s = do
    s₁ ← or_panic (k.iterate_redelegations (reset_redelegations height) height s)
    s₂ ← or_panic (k.iterate_unbonding_delegations (reset_unbonding_delegations height) height s₁)
    reset_validators allowed (k.validators_keys s₂) height s₂

  -- The rest, once the iterator is closed.
  unfoldable pub prep_slashing : ℕ → S → Outcome S
  unfolding reset_signing_info
  prep_slashing height s = do
    s₁ ← or_fatal (k.apply_and_return_validator_set_updates height s)
    or_panic (k.iterate_validator_signing_infos (reset_signing_info height) height s₁)

  -- An error on closing the iterator is logged, and the function returns.
  abbrev pub after_close : Outcome (Unit {0}) → ℕ → S → Outcome S
  after_close (ok _) height s = prep_slashing height s
  after_close (fail (error e)) height s = ok s
  after_close (fail (panic e)) height s = fail (panic e)
  after_close (fail (fatal e)) height s = fail (fatal e)

  unfoldable pub prep_for_zero_height_genesis : List String → ℕ → S → Outcome S
  unfolding allowed_addrs prep_distribution prep_staking prep_slashing
  prep_for_zero_height_genesis jail_allowed_addrs height s = do
    s₁ ← k.assert_invariants height s
    allowed ← allowed_addrs jail_allowed_addrs
    s₂ ← prep_distribution s₁
    s₃ ← prep_staking allowed height s₂
    after_close (k.close_iterator s₃) height s₃
