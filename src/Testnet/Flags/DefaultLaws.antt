-- ===== src/Testnet/Flags/DefaultLaws.antt =====
-- The flag sets of the commands of `testnet` have the defaults of their tables.
use vector_chain.Prelude.{true, ◌≡◌, refl, ◌∙◌, text_append, false, none, some, if◌then◌else◌}
use vector_chain.Testnet.Flags.{
  Flag, FlagValue, text, integer, duration, switch, same_flag, FlagSets, FlagDefaults, normal_name,
  add_testnet_flags, init_files_flags, num_validators, output_dir, chain_id, min_gas_prices,
  key_type, key_algorithm, node_dir_prefix, node_daemon_home, starting_ip_address, keyring_backend,
  commit_timeout, single_host, enable_logging, rpc_address, api_address, grpc_address,
  print_mnemonic, start_flags,
}
use vector_chain.Testnet.Flags.Table.{Table, FlagLaws, default_table, start_table}
use vector_chain.Testnet.Flags.SetLaws.{Looks, Shows, define-Looks}

module _ {F : Type 0} (sets : FlagSets F) (laws : FlagLaws sets) where
  -- A flag set without flags.
  new-Looks : Looks sets laws sets.new_flag_set (λ n. n) (λ n. none)
  new-Looks = (laws.new_normalize, laws.new_find)

  abbrev with_flag : (Flag → Flag) → Flag → FlagValue → Table → Table
  with_flag g m v t n = if same_flag (g n) (g m) then some v else t n

  -- The flags of both commands, before the names are normalized.
  abbrev shared_table : FlagDefaults → Table
  shared_table defaults =
      with_flag (λ n. n) key_type (text defaults.secp256k1_type)
        (with_flag (λ n. n) min_gas_prices
          (text (text_append "0.000006" defaults.default_bond_denom))
          (with_flag (λ n. n) chain_id (text "")
            (with_flag (λ n. n) output_dir (text "./.testnets")
              (with_flag (λ n. n) num_validators (integer 4) (λ n. none)))))

  add_testnet_flags-Looks :
      (defaults : FlagDefaults)
      → Looks sets laws
          (add_testnet_flags sets defaults sets.new_flag_set)
          normal_name
          (λ n. shared_table defaults (normal_name n))
  unfolding add_testnet_flags normal_name
  add_testnet_flags-Looks defaults =
      let s₁ = define-Looks sets laws num_validators (integer 4) _ _ _ new-Looks refl in
      let s₂ = define-Looks sets laws output_dir (text "./.testnets") _ _ _ s₁ refl in
      let s₃ = define-Looks sets laws chain_id (text "") _ _ _ s₂ refl in
      let s₄ =
        define-Looks sets laws min_gas_prices
          (text (text_append "0.000006" defaults.default_bond_denom)) _ _ _ s₃ refl in
      let (normal, found) =
        define-Looks sets laws key_type (text defaults.secp256k1_type) _ _ _ s₄ refl in
      (
        laws.set_normalize_func_normalize normal_name _,
        λ n.
            laws.set_normalize_func_find normal_name _ normal
              (λ m renamed. found m ∙ renamed-absent defaults m renamed) n
            ∙ found (normal_name n),
      )
    where
      renamed-absent :
          (defaults : FlagDefaults) (m : Flag)
          → same_flag (normal_name m) m ≡ false
          → shared_table defaults m ≡ none
      renamed-absent defaults num_validators e = cc
      renamed-absent defaults output_dir e = cc
      renamed-absent defaults chain_id e = cc
      renamed-absent defaults min_gas_prices e = cc
      renamed-absent defaults key_type e = cc
      renamed-absent defaults key_algorithm e = refl
      renamed-absent defaults node_dir_prefix e = cc
      renamed-absent defaults node_daemon_home e = cc
      renamed-absent defaults starting_ip_address e = cc
      renamed-absent defaults keyring_backend e = cc
      renamed-absent defaults commit_timeout e = cc
      renamed-absent defaults single_host e = cc
      renamed-absent defaults enable_logging e = cc
      renamed-absent defaults rpc_address e = cc
      renamed-absent defaults api_address e = cc
      renamed-absent defaults grpc_address e = cc
      renamed-absent defaults print_mnemonic e = cc

  pub init_files_flags-Shows :
      (defaults : FlagDefaults)
      → Shows sets laws (init_files_flags sets defaults) (default_table defaults)
  unfolding init_files_flags normal_name default_table
  init_files_flags-Shows defaults =
      let s₁ =
        define-Looks sets laws node_dir_prefix (text "node") _ _ _
          (add_testnet_flags-Looks defaults) refl in
      let s₂ = define-Looks sets laws node_daemon_home (text defaults.app_name) _ _ _ s₁ refl in
      let s₃ = define-Looks sets laws starting_ip_address (text "192.168.0.1") _ _ _ s₂ refl in
      let s₄ =
        define-Looks sets laws keyring_backend (text defaults.default_keyring_backend) _ _ _ s₃
          refl in
      let s₅ = define-Looks sets laws commit_timeout (duration 5000000000) _ _ _ s₄ refl in
      let (normal, found) = define-Looks sets laws single_host (switch false) _ _ _ s₅ refl in
      (normal, λ n. found n ∙ all_of defaults n)
    where
      all_of :
          (defaults : FlagDefaults) (n : Flag)
          → with_flag normal_name single_host
              (switch false)
              (with_flag normal_name commit_timeout (duration 5000000000) (
                with_flag normal_name keyring_backend (text defaults.default_keyring_backend) (
                  with_flag normal_name starting_ip_address (text "192.168.0.1") (
                    with_flag normal_name node_daemon_home (text defaults.app_name) (
                      with_flag normal_name node_dir_prefix
                        (text "node")
                        (λ n. shared_table defaults (normal_name n)))))))
              n
            ≡ default_table defaults (normal_name n)
      all_of defaults num_validators = refl
      all_of defaults output_dir = refl
      all_of defaults chain_id = refl
      all_of defaults min_gas_prices = refl
      all_of defaults key_type = refl
      all_of defaults key_algorithm = refl
      all_of defaults node_dir_prefix = refl
      all_of defaults node_daemon_home = refl
      all_of defaults starting_ip_address = refl
      all_of defaults keyring_backend = refl
      all_of defaults commit_timeout = refl
      all_of defaults single_host = refl
      all_of defaults enable_logging = refl
      all_of defaults rpc_address = refl
      all_of defaults api_address = refl
      all_of defaults grpc_address = refl
      all_of defaults print_mnemonic = refl

  pub start_flags-Shows :
      (defaults : FlagDefaults) → Shows sets laws (start_flags sets defaults) (start_table defaults)
  unfolding start_flags normal_name start_table
  start_flags-Shows defaults =
      let s₁ =
        define-Looks sets laws enable_logging (switch false) _ _ _
          (add_testnet_flags-Looks defaults) refl in
      let s₂ = define-Looks sets laws rpc_address (text "tcp://0.0.0.0:26657") _ _ _ s₁ refl in
      let s₃ = define-Looks sets laws api_address (text "tcp://0.0.0.0:1317") _ _ _ s₂ refl in
      let s₄ = define-Looks sets laws grpc_address (text "0.0.0.0:9090") _ _ _ s₃ refl in
      let (normal, found) = define-Looks sets laws print_mnemonic (switch true) _ _ _ s₄ refl in
      (normal, λ n. found n ∙ all_of defaults n)
    where
      all_of :
          (defaults : FlagDefaults) (n : Flag)
          → with_flag normal_name print_mnemonic
              (switch true)
              (with_flag normal_name grpc_address (text "0.0.0.0:9090") (
                with_flag normal_name api_address (text "tcp://0.0.0.0:1317") (
                  with_flag normal_name rpc_address (text "tcp://0.0.0.0:26657") (
                    with_flag normal_name enable_logging
                      (switch false)
                      (λ n. shared_table defaults (normal_name n))))))
              n
            ≡ start_table defaults (normal_name n)
      all_of defaults num_validators = refl
      all_of defaults output_dir = refl
      all_of defaults chain_id = refl
      all_of defaults min_gas_prices = refl
      all_of defaults key_type = refl
      all_of defaults key_algorithm = refl
      all_of defaults node_dir_prefix = refl
      all_of defaults node_daemon_home = refl
      all_of defaults starting_ip_address = refl
      all_of defaults keyring_backend = refl
      all_of defaults commit_timeout = refl
      all_of defaults single_host = refl
      all_of defaults enable_logging = refl
      all_of defaults rpc_address = refl
      all_of defaults api_address = refl
      all_of defaults grpc_address = refl
      all_of defaults print_mnemonic = refl
