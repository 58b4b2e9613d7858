-- ===== src/Commands/PreRun.antt =====
-- What cmd/vectord/root.go runs before each command.
use vector_chain.Prelude.Actions.{Action, ◌>>=◌, ◌>>◌}
use vector_chain.Commands.Context.{
  ClientContext, ServerEnv, init_comet_bft_config, init_app_config, command_context,
}

module _ {D T X R W M Cm : Type 0} (env : ServerEnv D T X R W M Cm) where
  -- What is done to the command with its context.
  abbrev pub set_up_command : ClientContext T X → Action D (Unit {0})
  set_up_command ctx =
      env.set_cmd_client_context_handler ctx
      >> env.intercept_configs_pre_run_handler (init_app_config env).0 (init_app_config env).1
          (init_comet_bft_config env)

  -- The outputs of the command are set first. Its context stays in the variable that the closure captures; the contexts behind
  -- it are in a variable of the closure's own.
  unfoldable pub persistent_pre_run : Action (ClientContext T X × D) (Unit {0})
  unfolding command_context init_app_config init_comet_bft_config
  persistent_pre_run (init_client_ctx, d) =
      let ctx = env.with_cmd_context init_client_ctx in
      let d₀ = env.set_err (env.set_out d) in
      let (r, d') = (command_context env ctx >>= set_up_command) d₀ in (r, (ctx, d'))
