-- ===== src/Tests/Store.antt =====
-- A store for the export: lists of the collections, in which a setter replaces what has the key.
use vector_chain.Prelude.{
  false_is_true, ℕ, ◌+◌, ◌≡◌, ◌≢◌, refl, sym, ap, subst, ◌∙◌, inl, inr, String, str_eq, eq_iff,
  Bool, true, ◌&&◌, List, [], ◌∷◌, map, if◌then◌else◌, Bool-cases, Outcome, ok, fail, error,
  ok-injective,
}
use vector_chain.Export.{Bytes, Redelegation, UnbondingDelegation, Validator, SigningInfo, Keepers}
use vector_chain.Export.Visit.{Member, first, later, visit}
use vector_chain.Export.Laws.{
  redelegation_key, unbonding_key, info_key, Writes, Laws, ValidatorLaws,
}

pub record Store : Type 0 where
  pub reds : List Redelegation
  pub ubds : List UnbondingDelegation
  pub infos : List (Bytes × SigningInfo)
  pub vals : List Validator
  pub pool : ℕ
  pub owed : Bytes → ℕ

-- An address is a text of its own, in small or in capital letters.
abbrev pub parse_address : String → Outcome Bytes
parse_address x =
    if str_eq x "" then fail (error "empty address") else ok (if str_eq x "VAL" then "val" else x)

module _ {V K : Type 0} (key : V → K) (same : K → K → Bool) where
  abbrev remove : K → List V → List V
  remove k [] = []
  remove k (v ∷ vs) = let rest = remove k vs in if same k (key v) then rest else v ∷ rest

  abbrev pub replace : V → List V → List V
  replace v vs = v ∷ remove (key v) vs

  module _ (same_refl : (k : K) → same k k ≡ true) where
    Member-remove :
        (k : K) (vs : List V) (w : V) → Member w (remove k vs) → Member w vs × (key w ≢ k)
    Member-remove k [] w m = elim m [ ]
    Member-remove k (v ∷ vs) w m = elim (Bool-cases (same k (key v))) [
      | inl gone ↦
          let (before, other) = Member-remove k vs w (rw gone at m) in (later before, other)
      | inr stays ↦ elim (rw stays at m) [
        | first e ↦ (
          first e,
          λ p.
              false_is_true
                (sym stays ∙ (ap (λ u. same k (key u)) (sym e) ∙ (ap (same k) p ∙ same_refl k))),
        )
        | later n ↦ let (before, other) = Member-remove k vs w n in (later before, other)
      ]
    ]

    pub replace-Writes : (v : V) (vs : List V) → Writes key v vs (replace v vs)
    replace-Writes v vs w (first e) = inl e
    replace-Writes v vs w (later m) = inr (Member-remove (key v) vs w m)

abbrev pub same_text : String → String → Bool
same_text a b = str_eq a b

abbrev pub same_pair : String × String → String × String → Bool
same_pair a b = str_eq a.0 b.0 && str_eq a.1 b.1

abbrev pub same_triple : String × String × String → String × String × String → Bool
same_triple a b = str_eq a.0 b.0 && (str_eq a.1 b.1 && str_eq a.2 b.2)

pub same_text_refl : (a : String) → same_text a a ≡ true
same_text_refl a = (eq_iff a a).1 refl

pub same_pair_refl : (a : String × String) → same_pair a a ≡ true
same_pair_refl a = rw (same_text_refl a.0, same_text_refl a.1) refl

pub same_triple_refl : (a : String × String × String) → same_triple a a ≡ true
same_triple_refl a = rw (same_text_refl a.0, same_text_refl a.1, same_text_refl a.2) refl

abbrev pub find : Bytes → List Validator → Outcome Validator
find b [] = fail (error "validator does not exist")
find b (v ∷ vs) = let rest = find b vs in if str_eq b v.operator_address then ok v else rest

find-address :
    (a : Bytes) (vs : List Validator) (v : Validator) → find a vs ≡ ok v → a ≡ v.operator_address
find-address a [] v h = cc
find-address a (w ∷ vs) v h = elim (Bool-cases (str_eq a w.operator_address)) [
  | inl here ↦
      (eq_iff a w.operator_address).0 here
      ∙ ap Validator.operator_address (ok-injective (rw here at h))
  | inr past ↦ find-address a vs v (rw past at h)
]

abbrev pub store_keepers : Keepers Store ℕ
store_keepers = record {
  val_address_from_bech32 = parse_address;
  must_acc_address_from_bech32 = λ x. ok x;
  val_address_string = λ b. b;
  validator_address_codec = parse_address;
  assert_invariants = λ h s. ok s;
  withdraw_validator_commission = λ a h s. (fail (error "no commission"), s);
  withdraw_delegation_rewards = λ d v h s. ok s;
  delete_all_validator_slash_events = λ h s. s;
  delete_all_validator_historical_rewards = λ h s. s;
  get_validator_outstanding_rewards_coins = λ a h s. ok (s.owed a);
  fee_pool_get = λ h s. ok s.pool;
  fee_pool_set = λ c h s. ok (record s { pool = c });
  add_coins = λ a b. a + b;
  after_validator_created =
      λ a h s. ok (record s { owed = λ b. if str_eq b a then 0 else s.owed b });
  before_delegation_created = λ d v h s. ok s;
  after_delegation_modified = λ d v h s. ok s;
  iterate_validators = λ f h s. visit f s.vals s;
  get_all_delegations = λ h s. ok [];
  iterate_redelegations = λ f h s. visit f s.reds s;
  set_redelegation =
      λ r h s. ok (record s { reds = replace redelegation_key same_triple r s.reds });
  iterate_unbonding_delegations = λ f h s. visit f s.ubds s;
  set_unbonding_delegation =
      λ u h s. ok (record s { ubds = replace unbonding_key same_pair u s.ubds });
  validators_keys = λ s. map Validator.operator_address s.vals;
  close_iterator = λ s. ok tt;
  get_validator = λ b h s. find b s.vals;
  set_validator = λ v h s. ok (record s { vals = v ∷ s.vals });
  apply_and_return_validator_set_updates = λ h s. ok s;
  iterate_validator_signing_infos = λ f h s. visit f s.infos s;
  set_validator_signing_info =
      λ a i h s. ok (record s { infos = replace info_key same_text (a, i) s.infos });
}

unfoldable pub store_laws : Laws store_keepers
store_laws = record {
  redelegations = Store.reds;
  unbonding_delegations = Store.ubds;
  signing_infos = Store.infos;
  iterate_redelegations_lem = λ f h s. refl;
  iterate_unbonding_delegations_lem = λ f h s. refl;
  iterate_validator_signing_infos_lem = λ f h s. refl;
  set_redelegation-Writes = λ r h s s' e.
      subst (Writes redelegation_key r s.reds) (ap Store.reds (ok-injective e))
        (replace-Writes redelegation_key same_triple same_triple_refl r s.reds);
  set_unbonding_delegation-Writes = λ u h s s' e.
      subst (Writes unbonding_key u s.ubds) (ap Store.ubds (ok-injective e))
        (replace-Writes unbonding_key same_pair same_pair_refl u s.ubds);
  set_validator_signing_info-Writes = λ a i h s s' e.
      subst (Writes info_key (a, i) s.infos) (ap Store.infos (ok-injective e))
        (replace-Writes info_key same_text same_text_refl (a, i) s.infos);
  set_unbonding_delegation-redelegations = λ u h s s' e. ap Store.reds (sym (ok-injective e));
  set_validator_keeps =
      λ v h s s' e. (ap Store.reds (sym (ok-injective e)), ap Store.ubds (sym (ok-injective e)));
  apply_updates_keeps =
      λ h s s' e. (ap Store.reds (sym (ok-injective e)), ap Store.ubds (sym (ok-injective e)));
  set_validator_signing_info_keeps =
      λ a i h s s' e. (ap Store.reds (sym (ok-injective e)), ap Store.ubds (sym (ok-injective e)));
}

pub store_validator_laws : ValidatorLaws store_keepers
store_validator_laws = record {
  set_validator_lem = λ a b h v v' s s' found same e.
      ap (λ t. find b t.vals) (sym (ok-injective e))
      ∙ ap (λ o. if str_eq b o then ok v' else find b s.vals)
          (same ∙ sym (find-address a s.vals v found));
}
