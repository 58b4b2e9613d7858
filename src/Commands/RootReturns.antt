-- ===== src/Commands/RootReturns.antt =====
-- A call of `NewRootCmd` of cmd/vectord/root.go returns, and what it gives.
use vector_chain.Prelude.{◌≡◌, ap, ◌∙◌, String, false, [], Outcome, ok, fail, or_panic}
use vector_chain.Prelude.Results
use vector_chain.Prelude.Actions.{bind-passes}
use vector_chain.App.AutoCli.{AppOptions as CliOptions}
use vector_chain.Wiring.Steps.{Works}
use vector_chain.Wiring.ChainReturns.{new_chain_app-Returns}
use vector_chain.Commands.{Chain}
use vector_chain.Commands.Context.{ClientContext}
use vector_chain.Commands.Tree.{CommandMakers}
use vector_chain.Commands.Root.{
  SdkConfig, set_up_config, temp_dir, RootEnv, on_config, on_outside, temp_app, root_command,
  cli_options, start_temp_app, captured_context, finish_root, root_of_temp_app, new_root_cmd,
}
use vector_chain.Wiring.Calls.{Value}
use vector_chain.Wiring.Construct.{Host, Process}
use vector_chain.Wiring.Encoding.{encoding_config_of}

module _ {Cfg K S U X M O Codec Cmd C E BaseOption : Type 0} (config : SdkConfig Cfg)
    (host : Host K S U) (env : RootEnv K S U X M O Codec Cmd)
    (make : CommandMakers Cmd (Value K) (Value K) C E) (chain : Chain C E BaseOption) where
  -- Assumed: a new process has nothing assigned and nothing sealed, and the command line can be enhanced.
  pub record RootWorks : Type 0 where
    pub works : Works host
    pub empty : (dir : String) (s : S) → (env.temp_process dir s).built.places ≡ []
    pub unsealed :
        (dir : String) (s : S) → works.succeeds.seals (env.temp_process dir s).built.rest ≡ []
    pub enhances :
        (options : CliOptions M O Codec) (ctx : ClientContext (Value K) X) (cmd : Cmd)
        → (cmd' : Cmd) × (env.enhance_root_command options ctx cmd ≡ ok cmd')

  temp_app-Returns :
      RootWorks
      → (s : S) (dir : String) (left : S) → temp_dir env.dirs s ≡ (ok dir, left)
      → (p : Process K S U) × (temp_app config host env make chain s ≡ (ok p, p.built.rest))
  unfolding temp_app
  temp_app-Returns root s dir left e =
      let (p, made) =
        new_chain_app-Returns host root.works false (env.temp_process dir left)
          (root.empty dir left) (root.unsealed dir left) in
      (
        p,
        bind-passes (temp_dir env.dirs) (start_temp_app config host env make chain) s e
            ∙ ap {B = Outcome (Process K S U) × S}
                (λ r. (elim r.0 [ ok u ↦ ok r.1 | fail x ↦ fail x ], r.1.built.rest)) made,
      )

  -- On a configuration that takes its prefixes, and with a temporary directory, a call of
  -- `NewRootCmd` returns where `RootWorks` is so of the code outside, and the configuration of the SDK is sealed then.
  pub new_root_cmd-Returns :
      RootWorks
      → (c c₁ : Cfg) (s : S) (dir : String) (left : S) → set_up_config config c ≡ (ok tt, c₁)
      → temp_dir env.dirs s ≡ (ok dir, left)
      → (result : Cmd × ClientContext (Value K) X) × (s' : S) × (new_root_cmd config host env make
            chain
            (c, s)
          ≡ (ok result, (config.seal c₁, s')))
  unfolding new_root_cmd
  new_root_cmd-Returns root c c₁ s dir left configured temporary =
      let (p, made) = temp_app-Returns root s dir left temporary in
      let ctx = captured_context config host env make chain p p.built.rest in
      let (cmd, enhanced) =
        root.enhances (cli_options config host env make chain p (config.seal c₁)) ctx.0
          (root_command config host env make chain (encoding_config_of host p) p) in
      (
        (cmd, ctx.0),
        ctx.1,
        bind-passes (on_config config host env make chain (set_up_config config))
              (root_of_temp_app config host env make chain) (c, s)
              (ap {B = Outcome (Unit {0}) × (Cfg × S)} (λ r. (r.0, (r.1, s))) configured)
            ∙ bind-passes
                (on_outside config host env make chain (temp_app config host env make chain))
                (finish_root config host env make chain) (c₁, s)
                (ap {B = Outcome (Process K S U) × (Cfg × S)} (λ r. (r.0, (c₁, r.1))) made)
            ∙ ap {B = Outcome (Cmd × ClientContext (Value K) X) × (Cfg × S)}
                (λ o.
                  (Results.◌>>=◌ (or_panic o) (λ cmd. ok (cmd, ctx.0)), (config.seal c₁, ctx.1)))
                enhanced,
      )
