-- ===== src/Tests/Flags.antt =====
-- Flag sets as tables, and a command line of `testnet init-files`.
use vector_chain.Prelude.{
  text_append, str_eq, if◌then◌else◌, ℕ, ◌≡◌, refl, sym, ap, String, Bool, true, false, Option,
  none, some, List, [], ◌∷◌, Outcome, ok, fail, error,
}
use vector_chain.Prelude.Actions.{Action}
use vector_chain.Testnet.Config.{InitArgs}
use vector_chain.Testnet.Flags.{
  Flag, FlagValue, text, integer, duration, switch, FlagSets, FlagDefaults, normal_name,
  init_files_flags, set_all, read_init_flags, run_init_files, num_validators, key_type,
  key_algorithm, commit_timeout,
}
use vector_chain.Testnet.Flags.Table.{
  Table, put, duration_of, kind_of, FlagLaws, default_table, given, IsFit, table_args, print_args,
}
use vector_chain.Testnet.Start.{NetworkConfig, start_args, start_testnet}
use vector_chain.Testnet.Flags.StartLaws.{read_start_flags_lem, start_testnet_asks_given}
use vector_chain.Tests.Testnet.{start_env, default_network}
use vector_chain.Testnet.Flags.{chain_id, start_flags, read_start_flags}
use vector_chain.Testnet.Flags.Table.{start_table, table_flags}
use vector_chain.Testnet.Flags.ReadLaws.{read_init_flags-print_args, run_init_files_lem}

-- A flag set is the function that normalizes its names, and the table of its values.
abbrev FlagSet : Type 0
FlagSet = (Flag → Flag) × Table

abbrev accept : Option ℕ → Flag → FlagValue → FlagSet → Outcome FlagSet
accept none m v f = fail (error "unknown flag")
accept (some k) m v f = ok (f.0, put (f.0 m) v f.1)

abbrev string_result : Option FlagValue → Outcome String
string_result (some (text s)) = ok s
string_result o = fail (error "trying to get string value of flag of another type")

abbrev int_result : Option FlagValue → Outcome ℕ
int_result (some (integer n)) = ok n
int_result o = fail (error "trying to get int value of flag of another type")

abbrev duration_result : Option FlagValue → Outcome ℕ
duration_result (some (duration n)) = ok n
duration_result o = fail (error "trying to get duration value of flag of another type")

abbrev bool_result : Option FlagValue → Outcome Bool
bool_result (some (switch b)) = ok b
bool_result o = fail (error "trying to get bool value of flag of another type")

abbrev sets : FlagSets FlagSet
sets = record {
  new_flag_set = (λ n. n, λ n. none);
  define = λ m v f. (f.0, put (f.0 m) v f.1);
  set_normalize_func = λ h f. (h, f.1);
  set = λ m v f. accept (kind_of (f.1 (f.0 m))) m v f;
  get_string = λ f n. string_result (f.1 (f.0 n));
  get_int = λ f n. int_result (f.1 (f.0 n));
  get_duration = λ f n. duration_result (f.1 (f.0 n));
  get_bool = λ f n. bool_result (f.1 (f.0 n));
}

sets_laws : FlagLaws sets
sets_laws = record {
  find = λ f n. f.1 (f.0 n);
  normalize = λ f. f.0;
  new_find = λ n. refl;
  new_normalize = λ n. refl;
  define_normalize = λ m v f n. refl;
  define_find = λ m v f is_new n. refl;
  set_normalize_func_normalize = λ h f n. refl;
  set_normalize_func_find = λ h f same renamed n. ap f.1 (sym (same (h n)));
  set_sets =
      λ m v f e. ((f.0, put (f.0 m) v f.1), ap (λ k. accept k m v f) e, λ n. refl, λ n. refl);
  get_string_gets = λ f n s e. ap string_result e;
  get_int_gets = λ f n k e. ap int_result e;
  get_duration_gets = λ f n d e. ap duration_result e;
  get_bool_gets = λ f n b e. ap bool_result e;
}

abbrev defaults : FlagDefaults
defaults = record {
  app_name = "vectord";
  default_keyring_backend = "os";
  default_bond_denom = "stake";
  secp256k1_type = "secp256k1";
}

abbrev args : InitArgs
args = record {
  algo = "sr25519";
  chain_id = "local-1";
  keyring_backend = "test";
  min_gas_prices = "0.1uvctr";
  node_daemon_home = "vectord";
  node_dir_prefix = "node";
  num_validators = 3;
  output_dir = "/tmp/testnets";
  starting_ip_address = "10.0.0.2";
  single_machine = true;
}

-- The key type by its name and then by its alias, and the number of validators.
abbrev line : List (Flag × FlagValue)
line =
    (key_type, text "secp256k1")
    ∷ (num_validators, integer 2)
    ∷ (key_algorithm, text "ed25519")
    ∷ []

-- The initialization leaves its arguments and the timeout in a log.
abbrev log_init : InitArgs → ℕ → Action (List (InitArgs × ℕ)) (Unit {0})
log_init args timeout d = (ok tt, (args, timeout) ∷ d)

line_fits : IsFit (default_table defaults) line
unfolding IsFit default_table normal_name
line_fits = (refl, (refl, (refl, tt)))

line_table : table_args (given line (default_table defaults)) ≡ record {
  algo = "ed25519";
  chain_id = "";
  keyring_backend = "os";
  min_gas_prices = "0.000006stake";
  node_daemon_home = "vectord";
  node_dir_prefix = "node";
  num_validators = 2;
  output_dir = "./.testnets";
  starting_ip_address = "192.168.0.1";
  single_machine = false;
}
unfolding given default_table normal_name table_args
line_table = refl

read_init_flags-print_args_example :
    (f : FlagSet) × (set_all sets (print_args args 1000) (init_files_flags sets defaults) ≡ ok f)
    × (read_init_flags sets f ≡ ok (args, 1000))
read_init_flags-print_args_example = read_init_flags-print_args sets sets_laws defaults args 1000

run_init_files_lem_example :
    let t = given line (default_table defaults) in
    (f : FlagSet) × (set_all sets line (init_files_flags sets defaults) ≡ ok f)
    × (run_init_files sets (λ d. (ok tt, d)) (λ t c. t) log_init f 0 []
        ≡ log_init (table_args t) (duration_of (t commit_timeout)) [])
run_init_files_lem_example =
    run_init_files_lem sets sets_laws defaults line (λ d. (ok tt, d)) (λ t c. t) log_init 0 [] []
      line_fits refl

-- `testnet start` with a chain-id and two validators.
abbrev start_line : List (Flag × FlagValue)
start_line = (chain_id, text "local-2") ∷ (num_validators, integer 2) ∷ []

start_line_fits : IsFit (start_table defaults) start_line
unfolding IsFit start_table normal_name
start_line_fits = (refl, (refl, tt))

parsed :
    (f : FlagSet) × (set_all sets start_line (start_flags sets defaults) ≡ ok f)
    × (read_start_flags sets f ≡ table_flags (given start_line (start_table defaults)))
parsed = read_start_flags_lem sets sets_laws defaults start_line start_line_fits

started : start_testnet start_env (start_args (read_start_flags sets parsed.0)) ≡ ok 0
unfolding start_testnet start_args
started = refl

start_testnet_asks_given_example :
    let flags = table_flags (given start_line (start_table defaults)) in
    (config : NetworkConfig) × (dir : String) × (start_env.stat_says_absent dir ≡ true)
    × (start_env.new_network dir config ≡ ok 0)
    × (dir ≡ text_append flags.output_dir (text_append "/" config.chain_id))
    × (config.chain_id
        ≡ (if str_eq flags.chain_id "" then default_network.chain_id else flags.chain_id))
    × (config.num_validators ≡ flags.num_validators)
    × (config.signing_algo ≡ flags.key_type)
    × (config.timeout_commit ≡ 0)
start_testnet_asks_given_example =
    start_testnet_asks_given sets sets_laws start_env defaults start_line parsed.0 start_line_fits
      parsed.1 started
