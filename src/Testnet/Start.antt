-- ===== src/Testnet/Start.antt =====
-- The command `testnet start` of cmd/vectord/testnet.go: its flags and `startTestnet`.
use vector_chain.Prelude.{
  ℕ, ◌≡◌, refl, String, text_append, str_eq, Bool, true, if◌then◌else◌, Outcome, ok, fail, error,
  ◌>>=◌, >>=-eq-ok, Bool-cases, inl, inr, ◌∙◌,
}

-- Nanoseconds, as in `time.Duration`.
abbrev pub Duration : Type 0
Duration = ℕ

-- The values of the command's flags.
pub record StartFlags : Type 0 where
  pub output_dir : String
  pub chain_id : String
  pub min_gas_prices : String
  pub num_validators : ℕ
  pub key_type : String
  pub enable_logging : Bool
  pub rpc_address : String
  pub api_address : String
  pub grpc_address : String
  pub print_mnemonic : Bool

pub record StartArgs : Type 0 where
  pub algo : String
  pub api_address : String
  pub chain_id : String
  pub enable_logging : Bool
  pub grpc_address : String
  pub min_gas_prices : String
  pub num_validators : ℕ
  pub output_dir : String
  pub print_mnemonic : Bool
  pub rpc_address : String
  pub timeout_commit : Duration

-- What `RunE` of the command sets; a field that is not set has the zero value.
unfoldable pub start_args : StartFlags → StartArgs
start_args flags = record {
  algo = flags.key_type;
  api_address = flags.api_address;
  chain_id = flags.chain_id;
  enable_logging = flags.enable_logging;
  grpc_address = flags.grpc_address;
  min_gas_prices = flags.min_gas_prices;
  num_validators = flags.num_validators;
  output_dir = flags.output_dir;
  print_mnemonic = flags.print_mnemonic;
  rpc_address = flags.rpc_address;
  timeout_commit = 0;
}

-- The fields of the SDK's `network.Config` that are set.
pub record NetworkConfig : Type 0 where
  pub chain_id : String
  pub signing_algo : String
  pub min_gas_prices : String
  pub num_validators : ℕ
  pub enable_logging : Bool
  pub rpc_address : String
  pub api_address : String
  pub grpc_address : String
  pub print_mnemonic : Bool
  pub timeout_commit : Duration

-- `config` is `network.DefaultConfig`.
unfoldable pub network_config : StartArgs → NetworkConfig → NetworkConfig
network_config args config = record {
  chain_id = if str_eq args.chain_id "" then config.chain_id else args.chain_id;
  signing_algo = args.algo;
  min_gas_prices = args.min_gas_prices;
  num_validators = args.num_validators;
  enable_logging = args.enable_logging;
  rpc_address = args.rpc_address;
  api_address = args.api_address;
  grpc_address = args.grpc_address;
  print_mnemonic = args.print_mnemonic;
  timeout_commit = args.timeout_commit;
}

-- What the start calls of the operating system and of the SDK. `stat_says_absent` is
-- `os.IsNotExist` of the error of `os.Stat`; `N` is a running network.
pub record StartEnv (N : Type 0) : Type 0 where
  pub default_config : NetworkConfig
  pub stat_says_absent : String → Bool
  pub new_network : String → NetworkConfig → Outcome N
  pub wait_for_height : ℕ → N → Outcome ℕ
  pub scanln : Outcome (Unit {0})

module _ {N : Type 0} (env : StartEnv N) where
  abbrev base_dir : StartArgs → NetworkConfig → String
  base_dir args config = text_append args.output_dir (text_append "/" config.chain_id)

  abbrev pub directory_exists : String → String → String
  directory_exists chain_id dir = text_append "testnests directory already exists for chain-id '" (
      text_append chain_id
        (text_append "': " (text_append dir ", please remove or select a new --chain-id")))

  -- The network that was started and cleaned up.
  unfoldable pub start_testnet : StartArgs → Outcome N
  unfolding network_config
  start_testnet args = do
    let config = network_config args env.default_config
    let dir = base_dir args config
    testnet ←
        if env.stat_says_absent dir
        then env.new_network dir config
        else fail (error (directory_exists config.chain_id dir))
    _ ← env.wait_for_height 1 testnet
    _ ← env.scanln
    ok testnet

  -- Where `testnet start` starts a network, there was no directory of that name, and the network has
  -- the chain-id of the flag or, if that is empty, the default one, the number of validators and
  -- the key type of the flags, and a commit timeout of zero: the default timeout is lost whatever the flags are.
  pub start_testnet_asks :
      (flags : StartFlags) {n : N}
      → start_testnet (start_args flags) ≡ ok n
      → (config : NetworkConfig) × (dir : String) × (env.stat_says_absent dir ≡ true)
        × (env.new_network dir config ≡ ok n)
        × (dir ≡ text_append flags.output_dir (text_append "/" config.chain_id))
        × (config.chain_id
            ≡ (if str_eq flags.chain_id "" then env.default_config.chain_id else flags.chain_id))
        × (config.num_validators ≡ flags.num_validators)
        × (config.signing_algo ≡ flags.key_type)
        × (config.timeout_commit ≡ 0)
  unfolding start_testnet start_args
  start_testnet_asks flags {n} e =
      let config = network_config (start_args flags) env.default_config in
      let dir = base_dir (start_args flags) config in
      elim (Bool-cases (env.stat_says_absent dir)) [
        | inr present ↦
            let stuck : ◌≡◌ {A = Outcome N} (fail (error (directory_exists config.chain_id dir)))
                (ok n) =
              rw present at e in
            cc
        | inl absent ↦
            let (testnet, made, f) = >>=-eq-ok (env.new_network dir config) _ (rw absent at e) in
            let (_, _, g) = >>=-eq-ok (env.wait_for_height 1 testnet) _ f in
            let (_, _, h) = >>=-eq-ok env.scanln _ g in
            (config, dir, absent, made ∙ h, refl, refl, refl, refl, refl)
      ]
