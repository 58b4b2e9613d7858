-- ===== src/Testnet/Flags/Table.antt =====
-- The flags of the commands of `testnet` as a table, and what pflag documents of its flag sets.
use vector_chain.Prelude.{
  true, ℕ, ◌≡◌, String, text_append, Bool, false, Option, none, some, List, [], ◌∷◌, ok,
  if◌then◌else◌,
}
use vector_chain.Testnet.Config.{InitArgs}
use vector_chain.Testnet.Start.{StartFlags}
use vector_chain.Testnet.Flags.{
  Flag, FlagValue, text, integer, duration, switch, kind, same_flag, FlagSets, FlagDefaults,
  normal_name, num_validators, output_dir, chain_id, min_gas_prices, key_type, key_algorithm,
  node_dir_prefix, node_daemon_home, starting_ip_address, keyring_backend, commit_timeout,
  single_host, enable_logging, rpc_address, api_address, grpc_address, print_mnemonic,
}

-- The value of each flag under its normalized name, as far as there is such a flag.
abbrev pub Table : Type 0
Table = Flag → Option FlagValue

abbrev pub put : Flag → FlagValue → Table → Table
put m v t n = if same_flag n m then some v else t n

abbrev pub text_of : Option FlagValue → String
text_of (some (text s)) = s
text_of (some (integer n)) = ""
text_of (some (duration d)) = ""
text_of (some (switch b)) = ""
text_of none = ""

abbrev pub integer_of : Option FlagValue → ℕ
integer_of (some (integer n)) = n
integer_of (some (text s)) = 0
integer_of (some (duration d)) = 0
integer_of (some (switch b)) = 0
integer_of none = 0

abbrev pub duration_of : Option FlagValue → ℕ
duration_of (some (duration d)) = d
duration_of (some (text s)) = 0
duration_of (some (integer n)) = 0
duration_of (some (switch b)) = 0
duration_of none = 0

abbrev pub switch_of : Option FlagValue → Bool
switch_of (some (switch b)) = b
switch_of (some (text s)) = false
switch_of (some (integer n)) = false
switch_of (some (duration d)) = false
switch_of none = false

abbrev pub kind_of : Option FlagValue → Option ℕ
kind_of none = none
kind_of (some v) = some (kind v)

-- What is documented of pflag: `find` is the value that `Lookup` finds, `normalize` the function that
-- normalizes the names. A flag that is defined for the
-- first time is found under each name that has its normalized name; the function
-- that normalizes may be set where it leaves the names of the flags so far as they are; a flag is set
-- to a value of its kind; and a getter gives the value of a flag of its kind.
pub record FlagLaws {F : Type 0} (sets : FlagSets F) : Type 0 where
  pub find : F → Table
  pub normalize : F → Flag → Flag
  pub new_find : (n : Flag) → find sets.new_flag_set n ≡ none
  pub new_normalize : (n : Flag) → normalize sets.new_flag_set n ≡ n
  pub define_normalize :
      (m : Flag) (v : FlagValue) (f : F) (n : Flag)
      → normalize (sets.define m v f) n ≡ normalize f n
  pub define_find :
      (m : Flag) (v : FlagValue) (f : F)
      → find f m ≡ none
      → (n : Flag)
      → find (sets.define m v f) n
        ≡ (if same_flag (normalize f n) (normalize f m) then some v else find f n)
  pub set_normalize_func_normalize :
      (h : Flag → Flag) (f : F) (n : Flag) → normalize (sets.set_normalize_func h f) n ≡ h n
  pub set_normalize_func_find :
      (h : Flag → Flag) (f : F)
      → ((n : Flag) → normalize f n ≡ n)
      → ((n : Flag) → same_flag (h n) n ≡ false → find f n ≡ none)
      → (n : Flag) → find (sets.set_normalize_func h f) n ≡ find f (h n)
  pub set_sets :
      (m : Flag) (v : FlagValue) (f : F)
      → kind_of (find f m) ≡ some (kind v)
      → (f' : F) × (sets.set m v f ≡ ok f')
        × ((n : Flag) → normalize f' n ≡ normalize f n)
        × ((n : Flag)
            → find f' n ≡ (if same_flag (normalize f n) (normalize f m) then some v else find f n))
  pub get_string_gets :
      (f : F) (n : Flag) (s : String) → find f n ≡ some (text s) → sets.get_string f n ≡ ok s
  pub get_int_gets :
      (f : F) (n : Flag) (k : ℕ) → find f n ≡ some (integer k) → sets.get_int f n ≡ ok k
  pub get_duration_gets :
      (f : F) (n : Flag) (d : ℕ) → find f n ≡ some (duration d) → sets.get_duration f n ≡ ok d
  pub get_bool_gets :
      (f : F) (n : Flag) (b : Bool) → find f n ≡ some (switch b) → sets.get_bool f n ≡ ok b

-- The defaults of `testnet init-files`.
unfoldable pub default_table : FlagDefaults → Table
default_table defaults num_validators = some (integer 4)
default_table defaults output_dir = some (text "./.testnets")
default_table defaults chain_id = some (text "")
default_table defaults min_gas_prices =
    some (text (text_append "0.000006" defaults.default_bond_denom))
default_table defaults key_type = some (text defaults.secp256k1_type)
default_table defaults key_algorithm = none
default_table defaults node_dir_prefix = some (text "node")
default_table defaults node_daemon_home = some (text defaults.app_name)
default_table defaults starting_ip_address = some (text "192.168.0.1")
default_table defaults keyring_backend = some (text defaults.default_keyring_backend)
default_table defaults commit_timeout = some (duration 5000000000)
default_table defaults single_host = some (switch false)
default_table defaults enable_logging = none
default_table defaults rpc_address = none
default_table defaults api_address = none
default_table defaults grpc_address = none
default_table defaults print_mnemonic = none

-- The defaults of `testnet start`.
unfoldable pub start_table : FlagDefaults → Table
start_table defaults num_validators = some (integer 4)
start_table defaults output_dir = some (text "./.testnets")
start_table defaults chain_id = some (text "")
start_table defaults min_gas_prices =
    some (text (text_append "0.000006" defaults.default_bond_denom))
start_table defaults key_type = some (text defaults.secp256k1_type)
start_table defaults key_algorithm = none
start_table defaults node_dir_prefix = none
start_table defaults node_daemon_home = none
start_table defaults starting_ip_address = none
start_table defaults keyring_backend = none
start_table defaults commit_timeout = none
start_table defaults single_host = none
start_table defaults enable_logging = some (switch false)
start_table defaults rpc_address = some (text "tcp://0.0.0.0:26657")
start_table defaults api_address = some (text "tcp://0.0.0.0:1317")
start_table defaults grpc_address = some (text "0.0.0.0:9090")
start_table defaults print_mnemonic = some (switch true)

-- The table behind a command line: each flag has the last value that is given for it, under its own
-- name or under its alias.
unfoldable pub given : List (Flag × FlagValue) → Table → Table
unfolding normal_name
given [] t = t
given ((m, v) ∷ line) t = given line (put (normal_name m) v t)

-- The command line names flags of the table only, and gives each a value of its kind.
unfoldable pub IsFit : Table → List (Flag × FlagValue) → Type 0
unfolding normal_name
IsFit defaults [] = Unit {0}
IsFit defaults ((m, v) ∷ line) =
    (kind_of (defaults (normal_name m)) ≡ some (kind v)) × IsFit defaults line

-- The arguments of `testnet init-files` that a table gives.
unfoldable pub table_args : Table → InitArgs
table_args t = record {
  output_dir = text_of (t output_dir);
  keyring_backend = text_of (t keyring_backend);
  chain_id = text_of (t chain_id);
  min_gas_prices = text_of (t min_gas_prices);
  node_dir_prefix = text_of (t node_dir_prefix);
  node_daemon_home = text_of (t node_daemon_home);
  starting_ip_address = text_of (t starting_ip_address);
  num_validators = integer_of (t num_validators);
  algo = text_of (t key_type);
  single_machine = switch_of (t single_host);
}

-- The flags of `testnet start` that a table gives.
unfoldable pub table_flags : Table → StartFlags
table_flags t = record {
  output_dir = text_of (t output_dir);
  chain_id = text_of (t chain_id);
  min_gas_prices = text_of (t min_gas_prices);
  num_validators = integer_of (t num_validators);
  key_type = text_of (t key_type);
  enable_logging = switch_of (t enable_logging);
  rpc_address = text_of (t rpc_address);
  api_address = text_of (t api_address);
  grpc_address = text_of (t grpc_address);
  print_mnemonic = switch_of (t print_mnemonic);
}

-- The command line that gives all the arguments, and the commit timeout.
unfoldable pub print_args : InitArgs → ℕ → List (Flag × FlagValue)
print_args args timeout =
    (output_dir, text args.output_dir)
    ∷ (keyring_backend, text args.keyring_backend)
    ∷ (chain_id, text args.chain_id)
    ∷ (min_gas_prices, text args.min_gas_prices)
    ∷ (node_dir_prefix, text args.node_dir_prefix)
    ∷ (node_daemon_home, text args.node_daemon_home)
    ∷ (starting_ip_address, text args.starting_ip_address)
    ∷ (num_validators, integer args.num_validators)
    ∷ (key_algorithm, text args.algo)
    ∷ (single_host, switch args.single_machine)
    ∷ (commit_timeout, duration timeout)
    ∷ []
