-- ===== src/Fixtures/Laws.antt =====
-- The genesis state that app/test_helpers.go makes of a validator set.
use vector_chain.Prelude.{
  ℕ, ◌+◌, ◌*◌, arith, String, Option, some, List, [], ◌∷◌, ◌++◌, length, map, panic, ok, fail,
  >>=-eq-ok, ok-injective, ◌≡◌, refl, sym, ap, ◌∙◌, subst,
}
use mathlib.Core.List.{append-nil, append_assoc, map-append}
use native.Mathlib.Nat.{suc-mul, mul_comm}
use vector_chain.App.Modules.{Module, staking, bank}
use vector_chain.Fixtures.{
  Coins, Balance, Validator, Delegation, ConsensusValidator, FixtureEnv, wrap, first_address,
  new_validator, bond_validators, total_supply, bonded_balance, genesis_state_with_val_set,
}
use vector_chain.Fixtures.Supply.{Measure, balances_of, balances_of-snoc, total_supply-balances_of}

module _ {P K A Acc J : Type 0} (env : FixtureEnv P K A Acc J) where
  -- What the validators have of tokens.
  unfoldable pub total_tokens : List (Validator A) → ℕ
  total_tokens [] = 0
  total_tokens (v ∷ vs) = v.tokens + total_tokens vs

  total_tokens-append :
      (vs ws : List (Validator A)) → total_tokens (vs ++ ws) ≡ total_tokens vs + total_tokens ws
  unfolding total_tokens
  total_tokens-append [] ws = omega arith
  total_tokens-append (v ∷ vs) ws = omega (arith, total_tokens-append vs ws)

  -- The delegation is the first account's to the validator that stands beside it.
  unfoldable pub Delegated : List Acc → List (Validator A) → List Delegation → Type 0
  Delegated gen_accs [] [] = Unit
  Delegated gen_accs [] (d ∷ ds) = ⊥
  Delegated gen_accs (v ∷ vs) [] = ⊥
  Delegated gen_accs (v ∷ vs) (d ∷ ds) =
      (first_address env gen_accs ≡ ok d.delegator_address)
      × (d.validator_address ≡ v.operator_address)
      × Delegated gen_accs vs ds

  Delegated-snoc :
      (gen_accs : List Acc) (vs : List (Validator A)) (ds : List Delegation) (v : Validator A)
      (d : Delegation)
      → first_address env gen_accs ≡ ok d.delegator_address
      → d.validator_address ≡ v.operator_address
      → Delegated gen_accs vs ds
      → Delegated gen_accs (vs ++ v ∷ []) (ds ++ d ∷ [])
  unfolding Delegated
  Delegated-snoc gen_accs [] [] v d e e' h = (e, e', tt)
  Delegated-snoc gen_accs (w ∷ vs) (c ∷ ds) v d e e' (h₁, h₂, h) =
      (h₁, h₂, Delegated-snoc gen_accs vs ds v d e e' h)
  Delegated-snoc gen_accs [] (c ∷ ds) v d e e' h = absurd h
  Delegated-snoc gen_accs (w ∷ vs) [] v d e e' h = absurd h

  one_token : (v : Validator A) → total_tokens (v ∷ []) ≡ v.tokens
  unfolding total_tokens
  one_token v = omega arith

  -- What the loop has gathered after the validators `vals`, behind `start`: one validator of the
  -- default power for each of them, with its operator's address, and one delegation beside it.
  pub record Gathered (gen_accs : List Acc) (vals : List (ConsensusValidator P))
      (start : List (Validator A)) (r : List (Validator A) × List Delegation) : Type 0 where
    pub delegated : Delegated gen_accs r.0 r.1
    pub operators :
        map Validator.operator_address r.0
        ≡ map Validator.operator_address start ++ map (λ val. env.val_address val.address) vals
    pub tokens : total_tokens r.0 ≡ total_tokens start + length vals * env.default_power_reduction

  bond_validators-Gathered :
      (gen_accs : List Acc) (vals : List (ConsensusValidator P)) (vs : List (Validator A))
      (ds : List Delegation) {r : List (Validator A) × List Delegation}
      → bond_validators env gen_accs vals vs ds ≡ ok r
      → Delegated gen_accs vs ds
      → Gathered gen_accs vals vs r
  unfolding bond_validators
  bond_validators-Gathered gen_accs [] vs ds h d =
      subst (Gathered gen_accs [] vs) (ok-injective h) (record {
        delegated = d;
        operators = sym (append-nil (map Validator.operator_address vs));
        tokens = omega arith;
      })
  bond_validators-Gathered gen_accs (val ∷ vals) vs ds h d =
      let (pk, e₁, f₁) =
        >>=-eq-ok (wrap env "failed to convert pubkey" (env.from_cmt_pub_key val.pub_key)) _ h in
      let (pk_any, e₂, f₂) =
        >>=-eq-ok (wrap env "failed to create new any" (env.new_any_with_value pk)) _ f₁ in
      let (delegator, e₃, f₃) = >>=-eq-ok (first_address env gen_accs) _ f₂ in
      let v = new_validator env val pk_any in
      let rest =
        bond_validators-Gathered gen_accs vals (vs ++ v ∷ []) _ f₃
          (Delegated-snoc gen_accs vs ds v _ e₃ refl d) in
      let one : total_tokens (v ∷ []) ≡ env.default_power_reduction = one_token v in
      record {
        delegated = rest.delegated;
        operators =
            rest.operators
            ∙ ap (λ l. l ++ map (λ val. env.val_address val.address) vals)
                (map-append Validator.operator_address vs (v ∷ []))
            ∙ append_assoc (map Validator.operator_address vs) (v.operator_address ∷ [])
                (map (λ val. env.val_address val.address) vals);
        tokens = omega (
          arith,
          rest.tokens,
          total_tokens-append vs (v ∷ []),
          one,
          suc-mul (length vals) env.default_power_reduction,
        );
      }

  -- For any measure of coins under which their addition adds: a genesis state that is made holds, for
  -- staking, one bonded validator of the default power for each validator of the set and one
  -- delegation of the first account beside each; for the bank, the given balances and one of the
  -- bonded pool, which is the tokens of all the validators, with a supply that is what those balances
  -- come to.
  pub genesis_state_with_val_set_lem :
      (amount_of : Coins → String → ℕ)
      → Measure env amount_of
      → (genesis_state : Module → Option J) (val_set : List (ConsensusValidator P))
        (gen_accs : List Acc) (balances : List Balance) (g : Module → Option J)
      → genesis_state_with_val_set env genesis_state val_set gen_accs balances ≡ ok g
      → (bonded : List (Validator A) × List Delegation) × (supply : Coins) × Gathered gen_accs
          val_set [] bonded
        × (g staking ≡ some (env.marshal_staking bonded.0 bonded.1))
        × (g bank
            ≡ some (env.marshal_bank (balances ++ bonded_balance env (length val_set) ∷ []) supply))
        × (Balance.coins (bonded_balance env (length val_set))
            ≡ (env.default_bond_denom, total_tokens bonded.0) ∷ [])
        × ((denom : String)
            → amount_of supply denom
              ≡ balances_of env amount_of denom balances
                + amount_of (Balance.coins (bonded_balance env (length val_set))) denom)
  unfolding genesis_state_with_val_set Delegated total_tokens
  genesis_state_with_val_set_lem amount_of m genesis_state val_set gen_accs balances g h =
      let (bonded, e, f) = >>=-eq-ok (bond_validators env gen_accs val_set [] []) _ h in
      let made = ok-injective f in
      let pool = bonded_balance env (length val_set) in
      let balances' = balances ++ pool ∷ [] in
      let gathered = bond_validators-Gathered gen_accs val_set [] [] e tt in
      let tokens : env.default_power_reduction * length val_set ≡ total_tokens bonded.0 =
        omega (arith, gathered.tokens, mul_comm env.default_power_reduction (length val_set)) in
      (
        bonded,
        total_supply env env.no_coins balances',
        gathered,
        ap (λ u. u staking) (sym made),
        ap (λ u. u bank) (sym made),
        ap (λ n. (env.default_bond_denom, n) ∷ []) tokens,
        λ denom. omega (
          arith,
          total_supply-balances_of env amount_of m denom env.no_coins balances',
          m.none_of denom,
          balances_of-snoc env amount_of denom balances pool,
        ),
      )

  -- Where the first public key converts and there is no genesis account, a set that is not empty makes
  -- the function panic, whatever its balances.
  pub genesis_state-panics :
      (genesis_state : Module → Option J) (val : ConsensusValidator P)
      (vals : List (ConsensusValidator P)) (balances : List Balance) (pk : K) (pk_any : A)
      → env.from_cmt_pub_key val.pub_key ≡ ok pk
      → env.new_any_with_value pk ≡ ok pk_any
      → genesis_state_with_val_set env genesis_state (val ∷ vals) [] balances
        ≡ fail (panic "index out of range")
  unfolding genesis_state_with_val_set bond_validators
  genesis_state-panics genesis_state val vals balances pk pk_any e e' = rw (e, e') refl
