-- ===== src/Commands/PreRunLaws.antt =====
-- With which context cmd/vectord/root.go runs a command.
use vector_chain.Prelude.{true, false, [], ◌∷◌, ◌++◌, ok, fail, Failure, ◌≡◌, ◌⊎◌}
use vector_chain.Prelude.Results
use vector_chain.Commands.Context.{ClientContext, ServerEnv}

module _ {D T X R W M Cm : Type 0} (env : ServerEnv D T X R W M Cm) where
  -- The command's context, after what was done between `d` and `d'`: the flags and then the client
  -- configuration are read into the context `start`, and the transaction configuration is replaced
  -- where the client is online.
  pub record IsCommandContext (start ctx : ClientContext T X) (d d' : D) : Type 0 where
    pub with_flags : ClientContext T X
    pub with_config : ClientContext T X
    pub between : D
    pub flags_read : env.read_persistent_command_flags start d ≡ (ok with_flags, between)
    pub config_read : env.read_from_client_config with_flags between ≡ (ok with_config, d')
    pub online :
        ((with_config.offline ≡ true) × (ctx ≡ with_config))
        ⊎ ((with_config.offline ≡ false)
            × (tx_config : T) × (env.new_tx_config with_config
                  (env.default_sign_modes ++ env.sign_mode_textual ∷ [])
                ≡ ok tx_config)
            × (ctx ≡ record with_config { tx_config = tx_config }))

  -- Why there is no context for the command, after what was done between `d` and `d'`: the flags or
  -- the client configuration could not be read, or the client is online and has no transaction
  -- configuration with the textual signing mode.
  pub record NoCommandContext (start : ClientContext T X) (x : Failure) (d d' : D) : Type 0 where
    pub reason :
        (env.read_persistent_command_flags start d ≡ (fail x, d'))
        ⊎ ((with_flags : ClientContext T X) × (between : D) × (env.read_persistent_command_flags
                start d
              ≡ (ok with_flags, between))
            × ((env.read_from_client_config with_flags between ≡ (fail x, d'))
                ⊎ ((with_config : ClientContext T X) × (env.read_from_client_config with_flags
                        between
                      ≡ (ok with_config, d'))
                    × (with_config.offline ≡ false)
                    × (env.new_tx_config with_config
                          (env.default_sign_modes ++ env.sign_mode_textual ∷ [])
                        ≡ fail x))))
