-- ===== src/Commands/Context.antt =====
-- cmd/vectord/root.go and commands.go: the context of a command, as `PersistentPreRunE` makes it, and
-- the default app.toml.
use vector_chain.Prelude.{
  ℕ, String, text_append, Bool, List, [], ◌∷◌, ◌++◌, if◌then◌else◌, Outcome, ok,
}
use vector_chain.Prelude.Results
use vector_chain.Prelude.Actions.{Action, ◌>>=◌, lift}

-- `client.Context`, as far as it is read or set: `T` is a transaction configuration, `X` the rest.
pub record ClientContext (T X : Type 0) : Type 0 where
  pub offline : Bool
  pub tx_config : T
  pub remainder : X

-- `serverconfig.Config`, as far as it is set: `R` is the rest.
pub record ServerConfig (R : Type 0) : Type 0 where
  pub min_gas_prices : String
  pub query_gas_limit : ℕ
  pub others : R

-- `CustomAppConfig`
pub record CustomAppConfig (R W : Type 0) : Type 0 where
  pub config : ServerConfig R
  pub wasm : W

-- What the two files call of the SDK, of wasmd and of CometBFT. `M` is a signing mode, `Cm` the
-- configuration of CometBFT, `D` the command with its environment.
pub record ServerEnv (D T X R W M Cm : Type 0) : Type 0 where
  pub default_config : ServerConfig R
  pub default_config_template : String
  pub default_wasm_config : W
  pub default_wasm_config_template : String
  pub default_cmt_config : Cm
  pub default_sign_modes : List M
  pub sign_mode_textual : M
  pub with_cmd_context : ClientContext T X → ClientContext T X
  -- cmd.SetOut(cmd.OutOrStdout()) and cmd.SetErr(cmd.ErrOrStderr())
  pub set_out : D → D
  pub set_err : D → D
  pub read_persistent_command_flags : ClientContext T X → Action D (ClientContext T X)
  -- it creates client.toml where there is none
  pub read_from_client_config : ClientContext T X → Action D (ClientContext T X)
  pub new_tx_config : ClientContext T X → List M → Outcome T
  pub set_cmd_client_context_handler : ClientContext T X → Action D (Unit {0})
  pub intercept_configs_pre_run_handler : String → CustomAppConfig R W → Cm → Action D (Unit {0})

module _ {D T X R W M Cm : Type 0} (env : ServerEnv D T X R W M Cm) where
  unfoldable pub init_comet_bft_config : Cm
  init_comet_bft_config = env.default_cmt_config

  unfoldable pub init_app_config : String × CustomAppConfig R W
  init_app_config = (
    text_append env.default_config_template env.default_wasm_config_template,
    record {
      config = record env.default_config { min_gas_prices = "1uvctr"; query_gas_limit = 1000000 };
      wasm = env.default_wasm_config;
    },
  )

  -- The transaction configuration of a client that is online has the textual signing mode too.
  abbrev pub with_online_tx_config : ClientContext T X → Outcome (ClientContext T X)
  with_online_tx_config ctx =
      if ctx.offline
      then ok ctx
      else Results.◌>>=◌
          (env.new_tx_config ctx (env.default_sign_modes ++ env.sign_mode_textual ∷ []))
          (λ tx_config. ok (record ctx { tx_config = tx_config }))

  -- The contexts of `PersistentPreRunE`, from the one that the first assignment left to the one that
  -- the command is given.
  unfoldable pub command_context : ClientContext T X → Action D (ClientContext T X)
  command_context init_client_ctx = do
    with_flags ← env.read_persistent_command_flags init_client_ctx
    with_config ← env.read_from_client_config with_flags
    lift (with_online_tx_config with_config)
