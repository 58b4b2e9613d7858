-- ===== src/Tests/Commands.antt =====
-- An export at a height, and a command of a client that is online.
use vector_chain.Prelude.{
  ℕ, ◌≡◌, ◌↔◌, refl, String, Bool, true, false, some, List, [], ◌∷◌, ℤ, pos, negsuc, Outcome, ok,
  fail, error,
}
use vector_chain.Commands.{AppOptions, Chain, new_app, app_export}
use vector_chain.Commands.ExportLaws.{LoadedAt, HasHome, app_export_iff}
use vector_chain.Commands.Context.{ClientContext, ServerEnv}
use vector_chain.Commands.PreRun.{persistent_pre_run}

abbrev options : AppOptions
options = record {
  home = some "/root/.vector";
  is_viper = true;
  telemetry_enabled = false;
  inv_check_period = 0;
}

-- The application is the height that it stands at; 100 is the latest.
abbrev loaded : ℤ → ℕ → Outcome ℕ
loaded (pos n) c = ok n
loaded (negsuc n) c = fail (error "no such version")

abbrev created : Bool → Outcome ℕ
created true = ok 100
created false = ok 0

abbrev chain : Chain ℕ ℕ String
chain = record {
  new_chain_app = λ load_latest opts wasm base. created load_latest;
  default_baseapp_options = λ opts. [];
  load_height = loaded;
  export_app_state_and_validators = λ zero_height allowed modules c. ok c;
}

app_export_runs : app_export chain (pos 42) false [] options [] ≡ ok 42
unfolding app_export
app_export_runs = refl

app_export_latest : app_export chain (negsuc 0) false [] options [] ≡ ok 100
unfolding app_export
app_export_latest = refl

app_export_homeless :
    app_export chain (pos 42) false [] (record options { home = some "" }) []
    ≡ fail (error "application home is not set")
unfolding app_export
app_export_homeless = refl

new_app_runs : new_app chain options ≡ ok 100
unfolding new_app
new_app_runs = refl

app_export_iff_example : (app_export chain (pos 42) false [] options [] ≡ ok 42) ↔ (
    HasHome chain options
    × (options.is_viper ≡ true)
    × (c : ℕ) × LoadedAt chain (pos 42) options c
    × (chain.export_app_state_and_validators false [] [] c ≡ ok 42))
app_export_iff_example = app_export_iff chain (pos 42) false [] options [] 42

-- A transaction configuration is its signing modes; the command logs the outputs that were set and the modes that it was given.
abbrev Context : Type 0
Context = ClientContext (List ℕ) String

abbrev env : ServerEnv (List (List ℕ)) (List ℕ) String String String ℕ String
env = record {
  default_config = record { min_gas_prices = ""; query_gas_limit = 0; others = "" };
  default_config_template = "[config]";
  default_wasm_config = "wasm";
  default_wasm_config_template = "[wasm]";
  default_cmt_config = "cmt";
  default_sign_modes = 1 ∷ 127 ∷ [];
  sign_mode_textual = 2;
  with_cmd_context = λ ctx. record ctx { remainder = "cmd" };
  set_out = λ d. (1 ∷ []) ∷ d;
  set_err = λ d. (2 ∷ []) ∷ d;
  read_persistent_command_flags = λ ctx d. (ok ctx, d);
  read_from_client_config = λ ctx d. (ok ctx, (3 ∷ []) ∷ d);
  new_tx_config = λ ctx modes. ok modes;
  set_cmd_client_context_handler = λ ctx d. (ok tt, ctx.tx_config ∷ d);
  intercept_configs_pre_run_handler = λ template config cmt d. (ok tt, d);
}

abbrev initial : Context
initial = record { offline = false; tx_config = 1 ∷ []; remainder = "" }

pre_run_runs : persistent_pre_run env (initial, []) ≡ (
  ok tt,
  (record initial { remainder = "cmd" }, (1 ∷ 127 ∷ 2 ∷ []) ∷ (3 ∷ []) ∷ (2 ∷ []) ∷ (1 ∷ []) ∷ []),
)
unfolding persistent_pre_run
pre_run_runs = refl
