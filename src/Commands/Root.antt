-- ===== src/Commands/Root.antt =====
-- `NewRootCmd` of cmd/vectord/root.go: the configuration of the SDK, the temporary application that
-- gives the encoding configuration, the context that the commands start from, and the root command.
use vector_chain.Prelude.{
  String, text_append, false, List, [], ◌∷◌, Outcome, ok, fail, error, panic, fatal, or_panic,
}
use vector_chain.Prelude.Results
use vector_chain.Prelude.Actions.{Action, ◌>>=◌, ◌>>◌}
use vector_chain.App.AutoCli.{ListedModule, AppOptions as CliOptions, auto_cli_opts}
use vector_chain.Commands.{Chain}
use vector_chain.Commands.Context.{ClientContext}
use vector_chain.Commands.Tree.{CommandMakers, add_root_commands}
use vector_chain.Wiring.Places.{Place}
use vector_chain.Wiring.Calls.{Value}
use vector_chain.Wiring.Construct.{Host, Process, new_chain_app, place_value}
use vector_chain.Wiring.Encoding.{EncodingConfig, encoding_config_of}

-- The methods of `sdk.Config`; the setters panic once it is sealed.
pub record SdkConfig (Cfg : Type 0) : Type 0 where
  pub set_bech32_prefix_for_account : String → String → Cfg → Outcome Cfg
  pub set_bech32_prefix_for_validator : String → String → Cfg → Outcome Cfg
  pub set_bech32_prefix_for_consensus_node : String → String → Cfg → Outcome Cfg
  pub set_address_verifier : Cfg → Outcome Cfg
  pub seal : Cfg → Cfg
  pub account_prefix : Cfg → String
  pub validator_prefix : Cfg → String
  pub consensus_prefix : Cfg → String
  -- `sdk.PrefixPublic` and the like
  pub prefix_public : String
  pub prefix_validator : String
  pub prefix_operator : String
  pub prefix_consensus : String

module _ {Cfg : Type 0} (config : SdkConfig Cfg) where
  -- `Bech32PrefixAccAddr` to `Bech32PrefixConsPub` of app/app.go; the parts behind the first are
  -- listed from the last on.
  abbrev pub bech32_prefix : List String → String
  bech32_prefix [] = "vector"
  bech32_prefix (p ∷ ps) = text_append (bech32_prefix ps) p

  -- A setter; where it panics, the configuration stays.
  abbrev pub setting : (Cfg → Outcome Cfg) → Action Cfg (Unit {0})
  setting set c = elim (set c) [ ok c' ↦ (ok tt, c') | fail e ↦ (fail e, c) ]

  abbrev pub sealing : Action Cfg (Unit {0})
  sealing c = (ok tt, config.seal c)

  -- The prefixes of accounts, of addresses and of public keys.
  abbrev pub set_account : Action Cfg (Unit {0})
  set_account = setting (
      config.set_bech32_prefix_for_account (bech32_prefix [])
        (bech32_prefix (config.prefix_public ∷ [])))

  -- Those of validators and of consensus nodes, and the verifier; then the configuration is sealed.
  abbrev pub set_others : Unit {0} → Action Cfg (Unit {0})
  set_others _ =
      let public = config.prefix_public in
      let operator = config.prefix_operator ∷ config.prefix_validator ∷ [] in
      let consensus = config.prefix_consensus ∷ config.prefix_validator ∷ [] in
      setting (
        config.set_bech32_prefix_for_validator (bech32_prefix operator)
          (bech32_prefix (public ∷ operator)))
      >> setting (
          config.set_bech32_prefix_for_consensus_node (bech32_prefix consensus)
            (bech32_prefix (public ∷ consensus)))
      >> setting config.set_address_verifier
      >> sealing

  unfoldable pub set_up_config : Action Cfg (Unit {0})
  set_up_config = set_account >>= set_others

-- The calls of the operating system in `tempDir` of cmd/vectord/commands.go.
pub record TempDirs (S : Type 0) : Type 0 where
  pub mkdir_temp : String → String → Action S String
  pub remove_all : String → S → S

-- The directory is removed, by the deferred call, before it is returned.
unfoldable pub temp_dir : {S : Type 0} → TempDirs S → Action S String
temp_dir dirs s =
    let (r, s') = dirs.mkdir_temp "" "simd" s in
    elim r [
      | ok dir ↦ (ok dir, dirs.remove_all dir s')
      | fail (error e) ↦ (fail (panic (text_append "failed to create temp dir: " e)), s')
      | fail (panic e) ↦ (fail (panic e), s')
      | fail (fatal e) ↦ (fail (fatal e), s')
    ]

-- What else `NewRootCmd` calls, over the state `S` outside. `M`, `O` and `Codec` are what the options
-- of the command line are made of.
pub record RootEnv (K S U X M O Codec Cmd : Type 0) : Type 0 where
  pub dirs : TempDirs S
  -- a process with an in-memory database and options whose home is the directory
  pub temp_process : String → S → Process K S U
  pub default_node_home : String
  pub app_name : String
  -- the empty context, and its methods
  pub empty_context : ClientContext (Value K) X
  pub with_codec : Value K → ClientContext (Value K) X → ClientContext (Value K) X
  pub with_interface_registry : Value K → ClientContext (Value K) X → ClientContext (Value K) X
  pub with_legacy_amino : Value K → ClientContext (Value K) X → ClientContext (Value K) X
  pub with_input : ClientContext (Value K) X → ClientContext (Value K) X
  pub with_account_retriever : ClientContext (Value K) X → ClientContext (Value K) X
  pub with_home_dir : String → ClientContext (Value K) X → ClientContext (Value K) X
  pub with_viper : String → ClientContext (Value K) X → ClientContext (Value K) X
  -- the context that `config.ReadFromClientConfig` returns, with an error or without, and what it
  -- leaves of the disk, where it may create client.toml
  pub read_from_client_config : ClientContext (Value K) X → S → ClientContext (Value K) X × S
  -- a command without an action whose `PersistentPreRunE` is the one of the file
  pub pre_running_command : String → String → Cmd
  -- the options of the command line
  pub modules_of : Value K → List (ListedModule M)
  pub extract : List (ListedModule M) → O
  pub new_bech32_codec : String → Codec
  pub enhance_root_command : CliOptions M O Codec → ClientContext (Value K) X → Cmd → Outcome Cmd

module _ {Cfg K S U X M O Codec Cmd C E BaseOption : Type 0} (config : SdkConfig Cfg)
    (host : Host K S U) (env : RootEnv K S U X M O Codec Cmd)
    (make : CommandMakers Cmd (Value K) (Value K) C E) (chain : Chain C E BaseOption) where
  -- The configuration of the SDK, which is a variable of the process, and what is outside.
  abbrev pub World : Type 0
  World = Cfg × S

  abbrev pub on_config : {A : Type 0} → Action Cfg A → Action World A
  on_config m (c, s) = let (r, c') = m c in (r, (c', s))

  abbrev pub on_outside : {A : Type 0} → Action S A → Action World A
  on_outside m (c, s) = let (r, s') = m s in (r, (c, s'))

  abbrev pub start_temp_app : String → Action S (Process K S U)
  start_temp_app dir s =
      let (r, p) = new_chain_app host false (env.temp_process dir s) in
      (elim r [ ok u ↦ ok p | fail e ↦ fail e ], p.built.rest)

  -- `tempApp`: `NewChainApp` without the load of the latest version.
  unfoldable pub temp_app : Action S (Process K S U)
  unfolding temp_dir
  temp_app = temp_dir env.dirs >>= start_temp_app

  -- `initClientCtx`, as the first assignment leaves it.
  unfoldable pub initial_context : EncodingConfig K → ClientContext (Value K) X
  initial_context encoding_config =
      let c₁ = env.with_codec encoding_config.codec env.empty_context in
      let c₂ = env.with_interface_registry encoding_config.interface_registry c₁ in
      let c₃ = record c₂ { tx_config = encoding_config.tx_config } in
      let c₄ = env.with_legacy_amino encoding_config.amino c₃ in
      let c₅ = env.with_account_retriever (env.with_input c₄) in
      env.with_viper "" (env.with_home_dir env.default_node_home c₅)

  -- The root command with the commands below it.
  unfoldable pub root_command : EncodingConfig K → Process K S U → Cmd
  unfolding add_root_commands
  root_command encoding_config p =
      add_root_commands make chain env.default_node_home encoding_config.tx_config
        (place_value host Place.basic_manager p.built)
        (env.pre_running_command env.app_name (text_append env.app_name " Daemon (server)"))

  unfoldable pub cli_options : Process K S U → Cfg → CliOptions M O Codec
  cli_options p c =
      auto_cli_opts env.extract env.new_bech32_codec (config.account_prefix c)
        (config.validator_prefix c) (config.consensus_prefix c)
        (env.modules_of (place_value host Place.manager p.built))

  abbrev pub captured_context : Process K S U → S → ClientContext (Value K) X × S
  captured_context p = env.read_from_client_config (initial_context (encoding_config_of host p))

  abbrev pub enhance : Process K S U → Unit {0} → Action World (Cmd × ClientContext (Value K) X)
  enhance p _ w =
      let (init_client_ctx, s) = captured_context p w.1 in
      let root_cmd = root_command (encoding_config_of host p) p in
      (
        Results.◌>>=◌
            (or_panic (env.enhance_root_command (cli_options p w.0) init_client_ctx root_cmd))
            (λ cmd. ok (cmd, init_client_ctx)),
        (w.0, s),
      )

  -- The root command of a temporary application, with the commands added and the command line
  -- enhanced.
  abbrev pub finish_root : Process K S U → Action World (Cmd × ClientContext (Value K) X)
  finish_root p = on_config (sealing config) >>= enhance p

  abbrev pub root_of_temp_app : Unit {0} → Action World (Cmd × ClientContext (Value K) X)
  root_of_temp_app _ = on_outside temp_app >>= finish_root

  -- The command, and the context that its `PersistentPreRunE` captures.
  unfoldable pub new_root_cmd : Action World (Cmd × ClientContext (Value K) X)
  unfolding set_up_config temp_app initial_context root_command cli_options
  new_root_cmd = on_config (set_up_config config) >>= root_of_temp_app
