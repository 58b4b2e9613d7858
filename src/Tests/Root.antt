-- ===== src/Tests/Root.antt =====
-- The root command over a host whose commands are lists of names.
use vector_chain.Prelude.{
  ℕ, ◌≡◌, refl, String, Bool, true, false, List, [], ◌∷◌, ◌++◌, ok, Outcome, fail, panic,
  if◌then◌else◌,
}
use vector_chain.Commands.{Chain}
use vector_chain.Commands.Context.{ClientContext}
use vector_chain.Commands.Tree.{CommandMakers}
use vector_chain.Commands.Root.{SdkConfig, set_up_config, temp_dir, RootEnv, new_root_cmd}
use vector_chain.Commands.RootLaws.{SealLaws, new_root_cmd_once, new_root_cmd_lem}
use vector_chain.Commands.RootContext.{ContextLaws, config_in}
use vector_chain.Commands.RootReturns.{RootWorks, new_root_cmd-Returns}
use vector_chain.Wiring.Places.{Place}
use vector_chain.Wiring.Calls.{Effect, Value, nil, find, found}
use vector_chain.Wiring.Construct.{Process, new_chain_app}
use vector_chain.Wiring.Encoding.{IsCoherent}
use vector_chain.Tests.Wiring.{Ways, host, works, empty}

-- The prefixes that are set, the last first, and whether the configuration is sealed.
abbrev Config : Type 0
Config = List String × Bool

abbrev set_prefix : String → String → Config → Outcome Config
set_prefix a k c = if c.1 then fail (panic "Config is sealed") else ok (k ∷ a ∷ c.0, false)

abbrev config : SdkConfig Config
config = record {
  set_bech32_prefix_for_account = set_prefix;
  set_bech32_prefix_for_validator = set_prefix;
  set_bech32_prefix_for_consensus_node = set_prefix;
  set_address_verifier = λ c. if c.1 then fail (panic "Config is sealed") else ok c;
  seal = λ c. (c.0, true);
  account_prefix = λ c. "vector";
  validator_prefix = λ c. "vectorvaloper";
  consensus_prefix = λ c. "vectorvalcons";
  prefix_public = "pub";
  prefix_validator = "val";
  prefix_operator = "oper";
  prefix_consensus = "cons";
}

config_laws : SealLaws config
config_laws = record {
  is_sealed = λ c. c.1;
  seal_seals = λ c. refl;
  account_panics = λ a k c sealed. ("Config is sealed", rw sealed refl);
}

abbrev Command : Type 0
Command = List String

abbrev make : CommandMakers Command (Value Ways) (Value Ways) ℕ ℕ
make = record {
  validated_group = λ texts. texts.name ∷ [];
  add_command = λ cmd cmds. cmd ++ joined cmds;
  init_cmd = λ b home. "init" ∷ [];
  testnet_start_cmd = "start" ∷ [];
  testnet_init_files_cmd = λ b. "init-files" ∷ [];
  debug_cmd = "debug" ∷ [];
  config_command = "config" ∷ [];
  pruning_cmd = λ new home. "prune" ∷ [];
  snapshot_cmd = λ new. "snapshots" ∷ [];
  add_server_commands = λ home new export flags cmd. cmd ++ flags ("start" ∷ []);
  extend_unsafe_reset_all_cmd = λ cmd. cmd;
  crisis_add_module_init_flags = λ cmd. cmd;
  wasm_add_module_init_flags = λ cmd. cmd;
  status_command = "status" ∷ [];
  genesis_commands = λ t b home. "genesis" ∷ [];
  query_event_for_tx_cmd = [];
  query_block_cmd = [];
  query_txs_by_events_cmd = [];
  query_blocks_cmd = [];
  query_tx_cmd = [];
  query_block_results_cmd = [];
  sign_command = [];
  sign_batch_command = [];
  multi_sign_command = [];
  multi_sign_batch_cmd = [];
  validate_signatures_command = [];
  broadcast_command = [];
  encode_command = [];
  decode_command = [];
  simulate_cmd = [];
  keys_commands = "keys" ∷ [];
}
  where
    joined : List Command → Command
    joined [] = []
    joined (c ∷ cs) = c ++ joined cs

abbrev chain : Chain ℕ ℕ ℕ
chain = record {
  new_chain_app = λ load_latest opts wasm base. ok 0;
  default_baseapp_options = λ opts. [];
  load_height = λ height c. ok c;
  export_app_state_and_validators = λ zero_height allowed modules c. ok c;
}

-- The codec, the registry, the amino codec and the home of a context.
abbrev Remainder : Type 0
Remainder = Value Ways × Value Ways × Value Ways × String

abbrev env : RootEnv Ways (List Effect) ℕ Remainder ℕ ℕ String Command
env = record {
  dirs = record { mkdir_temp = λ dir pattern s. (ok "/tmp/simd1", s); remove_all = λ dir s. s };
  temp_process = λ dir s. empty;
  default_node_home = "/root/.vector";
  app_name = "vectord";
  empty_context = record { offline = false; tx_config = nil; remainder = (nil, nil, nil, "") };
  with_codec = λ v ctx. let (_, r, a, h) = ctx.remainder in record ctx { remainder = (v, r, a, h) };
  with_interface_registry =
      λ v ctx. let (c, _, a, h) = ctx.remainder in record ctx { remainder = (c, v, a, h) };
  with_legacy_amino =
      λ v ctx. let (c, r, _, h) = ctx.remainder in record ctx { remainder = (c, r, v, h) };
  with_input = λ ctx. ctx;
  with_account_retriever = λ ctx. ctx;
  with_home_dir =
      λ home ctx. let (c, r, a, _) = ctx.remainder in record ctx { remainder = (c, r, a, home) };
  with_viper = λ prefix ctx. ctx;
  read_from_client_config = λ ctx s. (ctx, s);
  pre_running_command = λ name short. name ∷ [];
  modules_of = λ v. [];
  extract = λ ms. 0;
  new_bech32_codec = λ prefix. prefix;
  enhance_root_command = λ options ctx cmd. ok cmd;
}

context_laws : ContextLaws env
context_laws = record {
  view = λ ctx.
      let (c, r, a, h) = ctx.remainder in
      record { codec = c; registry = r; tx_config = ctx.tx_config; amino = a; home = h };
  codec_set = λ v ctx. refl;
  registry_set = λ v ctx. refl;
  tx_config_set = λ v ctx. refl;
  amino_set = λ v ctx. refl;
  input_keeps = λ ctx. refl;
  retriever_keeps = λ ctx. refl;
  home_set = λ home ctx. refl;
  viper_keeps = λ prefix ctx. refl;
}

root_works : RootWorks config host env make chain
root_works = record {
  works = works;
  empty = λ dir s. refl;
  unsealed = λ dir s. refl;
  enhances = λ options ctx cmd. (cmd, refl);
}

abbrev set_up : Config
set_up = (
  "vectorvalconspub" ∷ "vectorvalcons" ∷ "vectorvaloperpub" ∷ "vectorvaloper" ∷ "vectorpub"
      ∷ "vector" ∷ [],
  true,
)

configured : set_up_config config ([], false) ≡ (ok tt, set_up)
unfolding set_up_config
configured = refl

temporary : temp_dir env.dirs [] ≡ (ok "/tmp/simd1", [])
unfolding temp_dir
temporary = refl

abbrev Result : Type 0
Result = Command × ClientContext (Value Ways) Remainder

first_call :
    (result : Result) × (s' : List Effect) × (new_root_cmd config host env make chain
        (([], false), [])
      ≡ (ok result, (set_up, s')))
first_call =
    new_root_cmd-Returns config host env make chain root_works ([], false) set_up [] "/tmp/simd1" []
      configured temporary

new_root_cmd_lem_example :
    (dir : String) × (s₁ : List Effect) × (p : Process Ways (List Effect) ℕ)
    × (start : ClientContext (Value Ways) Remainder) × (env.dirs.mkdir_temp "" "simd" []
        ≡ (ok dir, s₁))
    × (new_chain_app host false (env.temp_process dir (env.dirs.remove_all dir s₁)) ≡ (ok tt, p))
    × (env.read_from_client_config start p.built.rest ≡ (first_call.0.1, first_call.1))
    × ((context_laws.view start).home ≡ "/root/.vector")
    × ((context_laws.view start).codec ≡ found (find Place.app_codec p.built.places))
    × ((context_laws.view start).registry ≡ found (find Place.interface_registry p.built.places))
    × ((context_laws.view start).amino ≡ found (find Place.legacy_amino p.built.places))
    × ((context_laws.view start).tx_config ≡ found (find Place.textual_tx_config p.built.places))
    × IsCoherent host.sdk Place.textual_tx_config (config_in (context_laws.view start))
new_root_cmd_lem_example =
    new_root_cmd_lem config host env make chain context_laws (λ dir s. refl) (([], false), [])
      first_call.0 (set_up, first_call.1) first_call.2

new_root_cmd_once_example :
    (e : String) × (new_root_cmd config host env make chain (set_up, Effect.set_router ∷ [])
      ≡ (fail (panic e), (set_up, Effect.set_router ∷ [])))
new_root_cmd_once_example =
    new_root_cmd_once config host env make chain config_laws ([], false) [] first_call.0 set_up
      first_call.1 (Effect.set_router ∷ []) first_call.2
