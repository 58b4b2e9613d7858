-- ===== src/Testnet/Flags/ReadLaws.antt =====
-- What `testnet init-files` reads of a command line, over what pflag documents.
use vector_chain.Prelude.{ℕ, ◌≡◌, refl, ap, ◌∙◌, false, some, List, ok, ◌>>=◌}
use vector_chain.Prelude.Actions as Actions
use vector_chain.Prelude.Actions.{Action, lift, bind-passes}
use vector_chain.Testnet.Config.{InitArgs}
use vector_chain.Testnet.Flags.{
  Flag, FlagValue, FlagSets, FlagDefaults, normal_name, or_zero, init_files_flags, set_all,
  init_args, read_init_flags, run_init_files, num_validators, output_dir, chain_id, min_gas_prices,
  key_type, node_dir_prefix, node_daemon_home, starting_ip_address, keyring_backend, commit_timeout,
  single_host,
}
use vector_chain.Testnet.Flags.Table.{
  Table, duration_of, kind_of, FlagLaws, default_table, given, IsFit, table_args, print_args,
}
use vector_chain.Testnet.Flags.Kinds.{
  HasKinds, text-of_kind, integer-of_kind, duration-of_kind, switch-of_kind,
}
use vector_chain.Testnet.Flags.SetLaws.{Shows, set_all-Shows}
use vector_chain.Testnet.Flags.DefaultLaws.{init_files_flags-Shows}

module _ {F : Type 0} (sets : FlagSets F) (laws : FlagLaws sets) where
  -- A table with values of the right kinds is read without an error.
  read-Shows :
      (defaults : FlagDefaults) (f : F) (t : Table)
      → HasKinds (default_table defaults) t
      → Shows sets laws f t
      → read_init_flags sets f ≡ ok (table_args t, duration_of (t commit_timeout))
  unfolding read_init_flags init_args table_args HasKinds default_table normal_name
  read-Shows defaults f t kinds (normal, found) =
      let text_at = λ (n : Flag) (e : kind_of (t (normal_name n)) ≡ some 0).
        ap (or_zero "")
          (laws.get_string_gets f n _ (found n ∙ text-of_kind (t (normal_name n)) e)) in
      λ i.
        laws.get_duration_gets f commit_timeout _
          (found commit_timeout ∙ duration-of_kind (t commit_timeout) (kinds commit_timeout)) i
        >>= λ timeout. ok (
          record {
            output_dir = text_at output_dir (kinds output_dir) i;
            keyring_backend = text_at keyring_backend (kinds keyring_backend) i;
            chain_id = text_at chain_id (kinds chain_id) i;
            min_gas_prices = text_at min_gas_prices (kinds min_gas_prices) i;
            node_dir_prefix = text_at node_dir_prefix (kinds node_dir_prefix) i;
            node_daemon_home = text_at node_daemon_home (kinds node_daemon_home) i;
            starting_ip_address = text_at starting_ip_address (kinds starting_ip_address) i;
            num_validators = or_zero 0 (
                laws.get_int_gets f num_validators _
                  (found num_validators ∙ integer-of_kind (t num_validators) (kinds num_validators))
                  i);
            algo = text_at key_type (kinds key_type) i;
            single_machine = or_zero false (
                laws.get_bool_gets f single_host _
                  (found single_host ∙ switch-of_kind (t single_host) (kinds single_host)) i);
          },
          timeout,
        )

  -- A command line that names flags of `testnet init-files` only, each with a value of its kind, is
  -- taken; the command then reads each argument without an error, as the last value that the line has
  -- for its flag, under the flag's name or its alias, or as its default.
  pub read_init_flags_lem :
      (defaults : FlagDefaults) (line : List (Flag × FlagValue))
      → IsFit (default_table defaults) line
      → let t = given line (default_table defaults) in
        (f : F) × (set_all sets line (init_files_flags sets defaults) ≡ ok f)
        × (read_init_flags sets f ≡ ok (table_args t, duration_of (t commit_timeout)))
  unfolding HasKinds
  read_init_flags_lem defaults line fits =
      let (f, e, shows, kinds) =
        set_all-Shows sets laws (default_table defaults) line (init_files_flags sets defaults)
          (default_table defaults) fits (λ n. refl) (init_files_flags-Shows sets laws defaults) in
      (f, e, read-Shows defaults f (given line (default_table defaults)) kinds shows)

  -- The arguments, printed as a command line, are taken, and read back as they are.
  pub read_init_flags-print_args :
      (defaults : FlagDefaults) (args : InitArgs) (timeout : ℕ)
      → (f : F) × (set_all sets (print_args args timeout) (init_files_flags sets defaults) ≡ ok f)
        × (read_init_flags sets f ≡ ok (args, timeout))
  unfolding IsFit print_args given default_table table_args normal_name
  read_init_flags-print_args defaults args timeout =
      read_init_flags_lem defaults (print_args args timeout)
        (refl, (refl, (refl, (refl, (refl, (refl, (refl, (refl, (refl, (refl, (refl, tt)))))))))))

  -- On a command line of the flags of `testnet init-files`, each with a value of its kind, the
  -- command initializes the files with the arguments that the line gives, the defaults for those that
  -- it does not give, and with its commit timeout in the configuration, where the query context is
  -- had.
  pub run_init_files_lem :
      {C D : Type 0} (defaults : FlagDefaults) (line : List (Flag × FlagValue))
      (query_context : Action D (Unit {0})) (with_timeout : ℕ → C → C)
      (init_files : InitArgs → C → Action D (Unit {0})) (config : C) (d d₁ : D)
      → IsFit (default_table defaults) line
      → query_context d ≡ (ok tt, d₁)
      → let t = given line (default_table defaults) in
        (f : F) × (set_all sets line (init_files_flags sets defaults) ≡ ok f)
        × (run_init_files sets query_context with_timeout init_files f config d
            ≡ init_files (table_args t) (with_timeout (duration_of (t commit_timeout)) config) d₁)
  unfolding run_init_files
  run_init_files_lem {C} {D} defaults line query_context with_timeout init_files config d d₁ fits
        had =
      let (f, e, read) = read_init_flags_lem defaults line fits in
      let initialize : InitArgs × ℕ → Action D (Unit {0}) =
        λ r. init_files r.0 (with_timeout r.1 config) in
      (
        f,
        e,
        bind-passes query_context (λ _. Actions.◌>>=◌ (lift (read_init_flags sets f)) initialize) d
              had
            ∙ bind-passes (lift (read_init_flags sets f)) initialize d₁ (ap (λ r. (r, d₁)) read),
      )
