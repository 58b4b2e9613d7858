-- ===== src/Testnet/Flags.antt =====
-- The flags of `testnet init-files` and `testnet start` of cmd/vectord/testnet.go: what is defined, what
-- is read of them, and the function that the former runs. The flag set is pflag's.
pub mod Table
pub mod Kinds
pub mod SetLaws
pub mod DefaultLaws
pub mod StartLaws
pub mod ReadLaws
use vector_chain.Prelude.{
  ℕ, ◌==◌, ◌≡◌, String, text_append, Bool, true, false, Option, none, some, List, [], ◌∷◌, Outcome,
  ok, fail, Failure, error, ◌>>=◌, if◌then◌else◌,
}
use vector_chain.Prelude.Actions as Actions
use vector_chain.Testnet.Config.{InitArgs}
use vector_chain.Testnet.Start.{StartFlags}

-- The names of the flags: the constants of the file, those of the SDK's packages `flags` and
-- `server`, and the alias of the key type.
pub data Flag : Type 0 where
  num_validators output_dir chain_id min_gas_prices key_type key_algorithm node_dir_prefix
        node_daemon_home starting_ip_address keyring_backend commit_timeout single_host
        enable_logging rpc_address api_address grpc_address print_mnemonic :
      Flag

abbrev pub flag_number : Flag → ℕ
flag_number num_validators = 0
flag_number output_dir = 1
flag_number chain_id = 2
flag_number min_gas_prices = 3
flag_number key_type = 4
flag_number key_algorithm = 5
flag_number node_dir_prefix = 6
flag_number node_daemon_home = 7
flag_number starting_ip_address = 8
flag_number keyring_backend = 9
flag_number commit_timeout = 10
flag_number single_host = 11
flag_number enable_logging = 12
flag_number rpc_address = 13
flag_number api_address = 14
flag_number grpc_address = 15
flag_number print_mnemonic = 16

abbrev pub same_flag : Flag → Flag → Bool
same_flag f g = flag_number f == flag_number g

-- The value of a flag: a text, an integer that is not negative, a number of nanoseconds, or a truth
-- value.
pub data FlagValue : Type 0 where
  text : String → FlagValue
  integer : ℕ → FlagValue
  duration : ℕ → FlagValue
  switch : Bool → FlagValue

abbrev pub kind : FlagValue → ℕ
kind (text s) = 0
kind (integer n) = 1
kind (duration d) = 2
kind (switch b) = 3

-- The methods of a `pflag.FlagSet` that are called, and `set`, which is what the command line does
-- with a flag and its value. `define` is `String`, `StringP`, `Int`, `Duration` or `Bool`, by the
-- kind of the default.
pub record FlagSets (F : Type 0) : Type 0 where
  pub new_flag_set : F
  pub define : Flag → FlagValue → F → F
  pub set_normalize_func : (Flag → Flag) → F → F
  pub set : Flag → FlagValue → F → Outcome F
  pub get_string : F → Flag → Outcome String
  pub get_int : F → Flag → Outcome ℕ
  pub get_duration : F → Flag → Outcome ℕ
  pub get_bool : F → Flag → Outcome Bool

-- The defaults that other packages give: `version.AppName`, `flags.DefaultKeyringBackend`,
-- `sdk.DefaultBondDenom` and `hd.Secp256k1Type`.
pub record FlagDefaults : Type 0 where
  pub app_name : String
  pub default_keyring_backend : String
  pub default_bond_denom : String
  pub secp256k1_type : String

-- `if name == flags.FlagKeyAlgorithm { name = flags.FlagKeyType }`
unfoldable pub normal_name : Flag → Flag
normal_name name = if same_flag name key_algorithm then key_type else name

-- `x, _ = ...`: the error is dropped, and what comes with an error is the zero value.
abbrev pub or_zero : {A : Type 0} → A → Outcome A → A
or_zero zero_value (ok a) = a
or_zero zero_value (fail e) = zero_value

module _ {F : Type 0} (sets : FlagSets F) (defaults : FlagDefaults) where
  unfoldable pub add_testnet_flags : F → F
  unfolding normal_name
  add_testnet_flags f =
      let f₁ = sets.define num_validators (integer 4) f in
      let f₂ = sets.define output_dir (text "./.testnets") f₁ in
      let f₃ = sets.define chain_id (text "") f₂ in
      let f₄ =
        sets.define min_gas_prices (text (text_append "0.000006" defaults.default_bond_denom)) f₃ in
      let f₅ = sets.define key_type (text defaults.secp256k1_type) f₄ in
      sets.set_normalize_func normal_name f₅

  -- The flags of the command.
  unfoldable pub init_files_flags : F
  unfolding add_testnet_flags
  init_files_flags =
      let f₁ = sets.define node_dir_prefix (text "node") (add_testnet_flags sets.new_flag_set) in
      let f₂ = sets.define node_daemon_home (text defaults.app_name) f₁ in
      let f₃ = sets.define starting_ip_address (text "192.168.0.1") f₂ in
      let f₄ = sets.define keyring_backend (text defaults.default_keyring_backend) f₃ in
      let f₅ = sets.define commit_timeout (duration 5000000000) f₄ in
      sets.define single_host (switch false) f₅

  -- The flags of `testnet start`.
  unfoldable pub start_flags : F
  unfolding add_testnet_flags
  start_flags =
      let f₁ = sets.define enable_logging (switch false) (add_testnet_flags sets.new_flag_set) in
      let f₂ = sets.define rpc_address (text "tcp://0.0.0.0:26657") f₁ in
      let f₃ = sets.define api_address (text "tcp://0.0.0.0:1317") f₂ in
      let f₄ = sets.define grpc_address (text "0.0.0.0:9090") f₃ in
      sets.define print_mnemonic (switch true) f₄

module _ {F : Type 0} (sets : FlagSets F) where
  -- The command line: the flags with their values, from left to right.
  unfoldable pub set_all : List (Flag × FlagValue) → F → Outcome F
  set_all [] f = ok f
  set_all ((name, v) ∷ line) f = sets.set name v f >>= λ f'. set_all line f'

  unfoldable pub init_args : F → InitArgs
  init_args f = record {
    output_dir = or_zero "" (sets.get_string f output_dir);
    keyring_backend = or_zero "" (sets.get_string f keyring_backend);
    chain_id = or_zero "" (sets.get_string f chain_id);
    min_gas_prices = or_zero "" (sets.get_string f min_gas_prices);
    node_dir_prefix = or_zero "" (sets.get_string f node_dir_prefix);
    node_daemon_home = or_zero "" (sets.get_string f node_daemon_home);
    starting_ip_address = or_zero "" (sets.get_string f starting_ip_address);
    num_validators = or_zero 0 (sets.get_int f num_validators);
    algo = or_zero "" (sets.get_string f key_type);
    single_machine = or_zero false (sets.get_bool f single_host);
  }

  -- What `RunE` reads: the arguments and the commit timeout, whose error is returned.
  unfoldable pub read_init_flags : F → Outcome (InitArgs × ℕ)
  unfolding init_args
  read_init_flags f = do
    timeout_commit ← sets.get_duration f commit_timeout
    ok (init_args f, timeout_commit)

  -- `RunE` of `testnet init-files`. `query_context` is `client.GetClientQueryContext`, `with_timeout`
  -- the assignment of `config.Consensus.TimeoutCommit`, `init_files` is `initTestnetFiles`.
  unfoldable pub run_init_files :
      {C D : Type 0}
      → Actions.Action D (Unit {0})
      → (ℕ → C → C)
      → (InitArgs → C → Actions.Action D (Unit {0}))
      → F
      → C
      → Actions.Action D (Unit {0})
  unfolding read_init_flags
  run_init_files query_context with_timeout init_files f config = Actions.◌>>◌ query_context (
      Actions.◌>>=◌ (Actions.lift (read_init_flags f))
        λ read. init_files read.0 (with_timeout read.1 config))

  -- What `RunE` of `testnet start` reads.
  unfoldable pub read_start_flags : F → StartFlags
  read_start_flags f = record {
    output_dir = or_zero "" (sets.get_string f output_dir);
    chain_id = or_zero "" (sets.get_string f chain_id);
    min_gas_prices = or_zero "" (sets.get_string f min_gas_prices);
    num_validators = or_zero 0 (sets.get_int f num_validators);
    key_type = or_zero "" (sets.get_string f key_type);
    enable_logging = or_zero false (sets.get_bool f enable_logging);
    rpc_address = or_zero "" (sets.get_string f rpc_address);
    api_address = or_zero "" (sets.get_string f api_address);
    grpc_address = or_zero "" (sets.get_string f grpc_address);
    print_mnemonic = or_zero false (sets.get_bool f print_mnemonic);
  }
