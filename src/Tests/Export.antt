-- ===== src/Tests/Export.antt =====
-- The preparation of a small store for the height zero, and its export.
use vector_chain.Prelude.{
  false_is_true, str_eq, ok-injective, sym, ap, ◌∙◌, ◌+◌, ℕ, ◌≡◌, refl, ◌⊎◌, String, Bool, true,
  false, List, [], ◌∷◌, contains, if◌then◌else◌, Outcome, ok, fail, fatal,
}
use vector_chain.Export.{Entry, Redelegation, UnbondingDelegation, Validator, SigningInfo}
use vector_chain.Export.Prepare.{reinit_validator, reset_validators, prep_for_zero_height_genesis}
use vector_chain.Export.Pool.{PoolLaws, Distinct, total_owed, reinit_validator_donates}
use vector_chain.Export.Visit.{Member, first}
use vector_chain.Export.ExportApp.{Exporter, ExportedApp, export_app_state_and_validators}
use vector_chain.Export.Heights.{AreZero, prep_zero_creation_heights, prep_zero_start_heights}
use vector_chain.Export.Jail.{expected, reset_validators_jails}
use vector_chain.Export.Result.{prep_rejects_address, IsExport, export_lem}
use vector_chain.Tests.Store.{Store, store_keepers, store_laws, store_validator_laws, find}

abbrev entry : ℕ → Entry
entry height = record { creation_height = height; content = "100" }

abbrev red : ℕ → Redelegation
red height = record {
  delegator_address = "alice";
  validator_src_address = "val";
  validator_dst_address = "other";
  entries = entry height ∷ [];
}

abbrev ubd : ℕ → UnbondingDelegation
ubd height = record {
  delegator_address = "bob";
  validator_address = "val";
  entries = entry height ∷ [];
}

abbrev info : ℕ → SigningInfo
info height = record { start_height = height; content = "" }

abbrev val : String → Bool → ℕ → Validator
val address jailed height = record {
  operator_address = address;
  jailed = jailed;
  unbonding_height = height;
  content = "";
}

abbrev before : Store
before = record {
  reds = red 7 ∷ [];
  ubds = ubd 9 ∷ [];
  infos = ("val", info 3) ∷ [];
  pool = 100;
  owed = λ b. if str_eq b "val" then 5 else 7;
  vals = val "val" false 5 ∷ val "other" false 6 ∷ [];
}

-- What the preparation makes of it, for the allow list that it is given.
abbrev run_of : List String → Outcome Store
run_of allowed = prep_for_zero_height_genesis store_keepers allowed 11 before

abbrev after_of : List String → Store
after_of allowed = store_of (run_of allowed)
  where
    store_of : Outcome Store → Store
    store_of (ok s) = s
    store_of (fail x) = before

prepares : run_of ("val" ∷ []) ≡ ok (after_of ("val" ∷ []))
unfolding prep_for_zero_height_genesis
prepares = refl

prepared_vals :
    (after_of ("val" ∷ [])).vals
    ≡ val "other" true 0 ∷ val "val" false 0 ∷ val "val" false 5 ∷ val "other" false 6 ∷ []
unfolding prep_for_zero_height_genesis
prepared_vals = refl

prep_zero_creation_heights_example : AreZero store_keepers store_laws (after_of ("val" ∷ []))
prep_zero_creation_heights_example =
    prep_zero_creation_heights store_keepers store_laws ("val" ∷ []) 11 before prepares

zero_info_listed : Member ("val", info 0) (store_laws.signing_infos (after_of ("val" ∷ [])))
unfolding prep_for_zero_height_genesis store_laws
zero_info_listed = first refl

prep_zero_start_heights_example : SigningInfo.start_height (info 0) ≡ 0
prep_zero_start_heights_example =
    prep_zero_start_heights store_keepers store_laws ("val" ∷ []) 11 before (λ t. refl) prepares
      ("val", info 0) zero_info_listed

abbrev reset_of : List String → Outcome Store
reset_of allowed = reset_validators store_keepers allowed ("val" ∷ []) 11 before

abbrev after_reset_of : List String → Store
after_reset_of allowed = store_of (reset_of allowed)
  where
    store_of : Outcome Store → Store
    store_of (ok s) = s
    store_of (fail x) = before

resets : reset_of ("other" ∷ []) ≡ ok (after_reset_of ("other" ∷ []))
unfolding reset_validators
resets = refl

reset_validators_jails_example :
    find "val" (after_reset_of ("other" ∷ [])).vals
    ≡ ok (
        if contains "val" ("val" ∷ [])
        then expected store_keepers store_validator_laws ("other" ∷ []) "val" (val "val" false 5)
        else val "val" false 5)
reset_validators_jails_example =
    reset_validators_jails store_keepers store_validator_laws ("other" ∷ []) ("val" ∷ []) 11 before
      "val" (val "val" false 5) resets refl

prep_rejects_address_applied :
    prep_for_zero_height_genesis store_keepers ("val" ∷ "" ∷ "other" ∷ []) 11 before
    ≡ fail (fatal "empty address")
prep_rejects_address_applied =
    prep_rejects_address store_keepers ("val" ∷ []) "" ("other" ∷ []) "empty address" 11 before
      before refl (("val", refl), tt) refl

abbrev exporter : Exporter Store String String
exporter = record {
  last_block_height = 11;
  export_genesis_for_modules = λ modules h s. ok "genesis";
  marshal_indent = λ g. ok g;
  write_validators = λ h s. ok [];
  get_consensus_params = λ h s. "params";
}

abbrev exported : ExportedApp String
exported = record {
  app_state = "genesis";
  validators = [];
  height = 0;
  consensus_params = "params";
}

exports :
    export_app_state_and_validators store_keepers exporter true ("val" ∷ []) [] before ≡ ok exported
unfolding export_app_state_and_validators prep_for_zero_height_genesis
exports = refl

export_lem_example :
    ((true ≡ false) × IsExport store_keepers exporter [] 12 before exported)
    ⊎ ((true ≡ true)
        × ((s' : Store) × (prep_for_zero_height_genesis store_keepers ("val" ∷ []) 11 before
              ≡ ok s')
            × IsExport store_keepers exporter [] 0 s' exported))
export_lem_example = export_lem store_keepers exporter true ("val" ∷ []) [] before exports

pool_laws : PoolLaws store_keepers (λ n. n)
pool_laws = record {
  pool = Store.pool;
  outstanding = Store.owed;
  validators = Store.vals;
  iterate_lem = λ f h s. refl;
  add_lem = λ a b. refl;
  get_lem = λ h s c e. sym (ok-injective e);
  outstanding_lem = λ a h s c e. sym (ok-injective e);
  set_lem = λ c h s s' e.
      (ap Store.pool (sym (ok-injective e)), λ b. ap (λ t. Store.owed t b) (sym (ok-injective e)));
  created_lem = λ a h s s' e.
      (ap Store.pool (sym (ok-injective e)), λ b. ap (λ t. Store.owed t b) (sym (ok-injective e)));
}

abbrev donated : Outcome Store
donated = store_keepers.iterate_validators (reinit_validator store_keepers 0) 0 before

abbrev after_donation : Store
after_donation = store_of donated
  where
    store_of : Outcome Store → Store
    store_of (ok s) = s
    store_of (fail x) = before

donates : donated ≡ ok after_donation
unfolding reinit_validator
donates = refl

pool_runs : after_donation.pool ≡ 112
unfolding reinit_validator
pool_runs = refl

distinct : Distinct store_keepers (λ n. n) pool_laws (pool_laws.validators before)
unfolding Distinct pool_laws
distinct = (((λ b e e'. differ (ok-injective (e ∙ sym e'))), tt), (tt, tt))
  where
    differ : ◌≡◌ {A = String} "val" "other" → ⊥
    differ e = false_is_true (sym (ap (str_eq "val") e))

reinit_validator_donates_example :
    pool_laws.pool after_donation
    ≡ pool_laws.pool before
      + total_owed store_keepers (λ n. n) pool_laws before (pool_laws.validators before)
reinit_validator_donates_example =
    reinit_validator_donates store_keepers (λ n. n) pool_laws 0 before after_donation distinct
      donates
