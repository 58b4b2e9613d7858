-- ===== src/Testnet/Flags/StartLaws.antt =====
-- What `testnet start` reads of a command line, over what pflag documents.
use vector_chain.Prelude.{
  ◌≡◌, refl, sym, ap, ◌∙◌, subst, ok-injective, String, text_append, str_eq, if◌then◌else◌, true,
  false, some, List, ok,
}
use vector_chain.Testnet.Start.{
  NetworkConfig, StartEnv, start_args, start_testnet, start_testnet_asks,
}
use vector_chain.Testnet.Flags.{
  Flag, FlagValue, FlagSets, FlagDefaults, normal_name, or_zero, start_flags, set_all,
  read_start_flags, num_validators, output_dir, chain_id, min_gas_prices, key_type, enable_logging,
  rpc_address, api_address, grpc_address, print_mnemonic,
}
use vector_chain.Testnet.Flags.Table.{
  Table, kind_of, FlagLaws, start_table, given, IsFit, table_flags,
}
use vector_chain.Testnet.Flags.Kinds.{HasKinds, text-of_kind, integer-of_kind, switch-of_kind}
use vector_chain.Testnet.Flags.SetLaws.{Shows, set_all-Shows}
use vector_chain.Testnet.Flags.DefaultLaws.{start_flags-Shows}

module _ {F : Type 0} (sets : FlagSets F) (laws : FlagLaws sets) where
  read_start-Shows :
      (defaults : FlagDefaults) (f : F) (t : Table)
      → HasKinds (start_table defaults) t
      → Shows sets laws f t
      → read_start_flags sets f ≡ table_flags t
  unfolding read_start_flags table_flags HasKinds start_table normal_name
  read_start-Shows defaults f t kinds (normal, found) =
      let text_at = λ (n : Flag) (e : kind_of (t (normal_name n)) ≡ some 0).
        ap (or_zero "")
          (laws.get_string_gets f n _ (found n ∙ text-of_kind (t (normal_name n)) e)) in
      let switch_at = λ (n : Flag) (e : kind_of (t (normal_name n)) ≡ some 3).
        ap (or_zero false)
          (laws.get_bool_gets f n _ (found n ∙ switch-of_kind (t (normal_name n)) e)) in
      λ i. record {
        output_dir = text_at output_dir (kinds output_dir) i;
        chain_id = text_at chain_id (kinds chain_id) i;
        min_gas_prices = text_at min_gas_prices (kinds min_gas_prices) i;
        num_validators = or_zero 0 (
            laws.get_int_gets f num_validators _
              (found num_validators ∙ integer-of_kind (t num_validators) (kinds num_validators)) i);
        key_type = text_at key_type (kinds key_type) i;
        enable_logging = switch_at enable_logging (kinds enable_logging) i;
        rpc_address = text_at rpc_address (kinds rpc_address) i;
        api_address = text_at api_address (kinds api_address) i;
        grpc_address = text_at grpc_address (kinds grpc_address) i;
        print_mnemonic = switch_at print_mnemonic (kinds print_mnemonic) i;
      }

  -- A command line that names flags of `testnet start` only, each with a value of its kind, is taken;
  -- the command then reads each flag as the last value that the line has for it, or as its default.
  pub read_start_flags_lem :
      (defaults : FlagDefaults) (line : List (Flag × FlagValue))
      → IsFit (start_table defaults) line
      → (f : F) × (set_all sets line (start_flags sets defaults) ≡ ok f)
        × (read_start_flags sets f ≡ table_flags (given line (start_table defaults)))
  unfolding HasKinds
  read_start_flags_lem defaults line fits =
      let (f, e, shows, kinds) =
        set_all-Shows sets laws (start_table defaults) line (start_flags sets defaults)
          (start_table defaults) fits (λ n. refl) (start_flags-Shows sets laws defaults) in
      (f, e, read_start-Shows defaults f (given line (start_table defaults)) kinds shows)

  -- Where `testnet start` starts a network for a command line of its flags, each with a value of its
  -- kind, the network is asked for with the chain-id that the line gives or, where it gives none or
  -- the empty one, with the default one, in a directory of that name that was not there; with the
  -- number of validators and the key type that the line gives, by default four and the SDK's; and with
  -- a commit timeout of zero, since there is no flag for it and the default timeout is lost.
  pub start_testnet_asks_given :
      {N : Type 0} (env : StartEnv N) (defaults : FlagDefaults) (line : List (Flag × FlagValue))
      (f : F) {n : N}
      → IsFit (start_table defaults) line
      → set_all sets line (start_flags sets defaults) ≡ ok f
      → start_testnet env (start_args (read_start_flags sets f)) ≡ ok n
      → let flags = table_flags (given line (start_table defaults)) in
        (config : NetworkConfig) × (dir : String) × (env.stat_says_absent dir ≡ true)
        × (env.new_network dir config ≡ ok n)
        × (dir ≡ text_append flags.output_dir (text_append "/" config.chain_id))
        × (config.chain_id
            ≡ (if str_eq flags.chain_id "" then env.default_config.chain_id else flags.chain_id))
        × (config.num_validators ≡ flags.num_validators)
        × (config.signing_algo ≡ flags.key_type)
        × (config.timeout_commit ≡ 0)
  start_testnet_asks_given env defaults line f {n} fits parsed e =
      let (f', parsed', read) = read_start_flags_lem defaults line fits in
      let same : read_start_flags sets f ≡ table_flags (given line (start_table defaults)) =
        ap (read_start_flags sets) (ok-injective (sym parsed ∙ parsed')) ∙ read in
      start_testnet_asks env (table_flags (given line (start_table defaults)))
        (subst (λ flags. start_testnet env (start_args flags) ≡ ok n) same e)
