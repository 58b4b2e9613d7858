-- ===== src/Commands/RootLaws.antt =====
-- What `NewRootCmd` of cmd/vectord/root.go makes, and that it can be called once only.
use vector_chain.Prelude.{
  ◌≡◌, sym, ap, ◌∙◌, subst, String, Bool, true, false, [], ◌∷◌, Outcome, ok, fail, error, panic,
  fatal, refl, text_append, ok-injective, or_panic, >>=-eq-ok,
}
use vector_chain.Prelude.Actions.{Action, bind-ok, bind-fails}
use vector_chain.Commands.{Chain}
use vector_chain.Commands.Context.{ClientContext}
use vector_chain.Commands.Tree.{CommandMakers}
use vector_chain.Commands.Root.{
  SdkConfig, bech32_prefix, set_account, set_others, sealing, set_up_config, temp_dir, RootEnv,
  on_config, on_outside, temp_app, initial_context, root_command, cli_options, start_temp_app,
  captured_context, enhance, finish_root, root_of_temp_app, new_root_cmd,
}
use vector_chain.Wiring.Places.{Place}
use vector_chain.Wiring.Calls.{Value, find, found}
use vector_chain.Wiring.Construct.{Host, Process, new_chain_app}
use vector_chain.Wiring.Encoding.{encoding_config_of, encoding_config_of-IsCoherent, IsCoherent}
use vector_chain.Commands.RootContext.{ContextLaws, config_in, initial_context-view}

-- What is documented of `sdk.Config`: sealing it seals it, and the setters panic on one that is
-- sealed.
pub record SealLaws {Cfg : Type 0} (config : SdkConfig Cfg) : Type 0 where
  pub is_sealed : Cfg → Bool
  pub seal_seals : (c : Cfg) → is_sealed (config.seal c) ≡ true
  pub account_panics :
      (address_prefix key_prefix : String) (c : Cfg)
      → is_sealed c ≡ true
      → (e : String) × (config.set_bech32_prefix_for_account address_prefix key_prefix c
          ≡ fail (panic e))

module _ {Cfg K S U X M O Codec Cmd C E BaseOption : Type 0} (config : SdkConfig Cfg)
    (host : Host K S U) (env : RootEnv K S U X M O Codec Cmd)
    (make : CommandMakers Cmd (Value K) (Value K) C E) (chain : Chain C E BaseOption) where
  abbrev Result : Type 0
  Result = Cmd × ClientContext (Value K) X

  abbrev new_root : Action (Cfg × S) Result
  new_root = new_root_cmd config host env make chain

  -- The steps of a call that returned.
  record Ran (s : S) (result : Result) (c' : Cfg) (s' : S) : Type 0 where
    p : Process K S U
    set_up : Cfg
    left : S
    made : temp_app config host env make chain s ≡ (ok p, left)
    sealed : c' ≡ config.seal set_up
    captured :
        env.read_from_client_config
          (initial_context config host env make chain (encoding_config_of host p))
          left
        ≡ (result.1, s')

  on_outside-ok :
      {A : Type 0} (m : Action S A) (c : Cfg) (s : S) {a : A} {w : Cfg × S}
      → on_outside config host env make chain m (c, s) ≡ (ok a, w)
      → m s ≡ (ok a, w.1)
  on_outside-ok m c s e = λ i. ((e i).0, (e i).1.1)

  on_config-rest :
      {A : Type 0} (m : Action Cfg A) (c : Cfg) (s : S) {a : A} {w : Cfg × S}
      → on_config config host env make chain m (c, s) ≡ (ok a, w)
      → w.1 ≡ s
  on_config-rest m c s e = sym (λ i. (e i).1.1)

  new_root_cmd-Ran :
      (c : Cfg) (s : S) {result : Result} {c' : Cfg} {s' : S}
      → new_root (c, s) ≡ (ok result, (c', s'))
      → Ran s result c' s'
  unfolding new_root_cmd
  new_root_cmd-Ran c s {result} {c'} {s'} e =
      let (_, w₁, e₁, f₁) =
        bind-ok (on_config config host env make chain (set_up_config config))
          (root_of_temp_app config host env make chain) (c, s) e in
      let (p, w₂, e₂, f₂) =
        bind-ok (on_outside config host env make chain (temp_app config host env make chain))
          (finish_root config host env make chain) w₁ f₁ in
      let (_, w₃, e₃, f₃) =
        bind-ok (on_config config host env make chain (sealing config))
          (enhance config host env make chain p) w₂ f₂ in
      let ctx = captured_context config host env make chain p w₃.1 in
      let (cmd, enhanced, same) =
        >>=-eq-ok
          (or_panic (
            env.enhance_root_command (cli_options config host env make chain p w₃.0) ctx.0
              (root_command config host env make chain (encoding_config_of host p) p)))
          (λ cmd. ok (cmd, ctx.0)) (ap (λ r. r.0) f₃) in
      let kept : w₃.1 ≡ w₂.1 = on_config-rest (sealing config) w₂.0 w₂.1 e₃ in
      let read : ctx ≡ (result.1, s') =
        λ i. (ap (λ r. r.1) (ok-injective same) i, ap (λ r. r.1.1) f₃ i) in
      record {
        p = p;
        set_up = w₂.0;
        left = w₂.1;
        made =
            subst (λ t. temp_app config host env make chain t ≡ (ok p, w₂.1))
              (on_config-rest (set_up_config config) c s e₁)
              (on_outside-ok (temp_app config host env make chain) w₁.0 w₁.1 e₂);
        sealed = sym (ap (λ r. r.1.0) f₃) ∙ sym (ap (λ r. r.1.0) e₃);
        captured =
            subst (λ t. captured_context config host env make chain p t ≡ (result.1, s')) kept read;
      }

  -- After a call of `NewRootCmd` that returned, each further call panics at its first setter, and
  -- leaves the configuration and everything else as they are.
  pub new_root_cmd_once :
      (laws : SealLaws config) (c : Cfg) (s : S) (result : Result) (c' : Cfg) (s' s₂ : S)
      → new_root_cmd config host env make chain (c, s) ≡ (ok result, (c', s'))
      → (e : String) × (new_root_cmd config host env make chain (c', s₂)
          ≡ (fail (panic e), (c', s₂)))
  unfolding new_root_cmd set_up_config
  new_root_cmd_once laws c s result c' s' s₂ e =
      let ran = new_root_cmd-Ran c s e in
      let (text, panics) =
        laws.account_panics (bech32_prefix config [])
          (bech32_prefix config (config.prefix_public ∷ [])) c'
          (ap laws.is_sealed ran.sealed ∙ laws.seal_seals ran.set_up) in
      (
        text,
        bind-fails (on_config config host env make chain (set_up_config config))
            (root_of_temp_app config host env make chain) (c', s₂)
            (ap {B = Outcome (Unit {0}) × (Cfg × S)} (λ r. (r.0, (r.1, s₂)))
              (bind-fails (set_account config) (set_others config) c' (
                ap {B = Outcome (Unit {0}) × Cfg}
                  (λ o. elim o [ ok d ↦ (ok tt, d) | fail x ↦ (fail x, c') ]) panics))),
      )

  temp_app-made :
      (s : S) {p : Process K S U} {s' : S}
      → temp_app config host env make chain s ≡ (ok p, s')
      → (dir : String) × (s₁ : S) × (temp_dir env.dirs s ≡ (ok dir, s₁))
        × (new_chain_app host false (env.temp_process dir s₁) ≡ (ok tt, p))
        × (s' ≡ p.built.rest)
  unfolding temp_app
  temp_app-made s {p} {s'} e =
      let (dir, s₁, e₁, f) =
        bind-ok (temp_dir env.dirs) (start_temp_app config host env make chain) s e in
      let q = new_chain_app host false (env.temp_process dir s₁) in
      let same = made q (ap (λ r. r.0) f) in
      (dir, s₁, e₁, same, sym (ap (λ r. r.1) f) ∙ ap (λ r. r.1.built.rest) same)
    where
      made :
          (q : Outcome (Unit {0}) × Process K S U)
          → (elim q.0 [ ok u ↦ ok q.1 | fail x ↦ fail x ]) ≡ ok p
          → q ≡ (ok tt, p)
      made (ok tt, q) h = λ i. (ok tt, ok-injective h i)
      made (fail x, q) h = cc

  temp_dir-made :
      (s : S) {dir : String} {s' : S}
      → temp_dir env.dirs s ≡ (ok dir, s')
      → (s₁ : S) × (env.dirs.mkdir_temp "" "simd" s ≡ (ok dir, s₁))
        × (s' ≡ env.dirs.remove_all dir s₁)
  unfolding temp_dir
  temp_dir-made s {dir} {s'} h = go (env.dirs.mkdir_temp "" "simd" s) refl h
    where
      made : Outcome String × S → Outcome String × S
      made r = elim r.0 [
        | ok d ↦ (ok d, env.dirs.remove_all d r.1)
        | fail (error e) ↦ (fail (panic (text_append "failed to create temp dir: " e)), r.1)
        | fail (panic e) ↦ (fail (panic e), r.1)
        | fail (fatal e) ↦ (fail (fatal e), r.1)
      ]

      go :
          (r : Outcome String × S)
          → env.dirs.mkdir_temp "" "simd" s ≡ r
          → made r ≡ (ok dir, s')
          → (s₁ : S) × (env.dirs.mkdir_temp "" "simd" s ≡ (ok dir, s₁))
            × (s' ≡ env.dirs.remove_all dir s₁)
      go (ok d, s₁) e h =
          let same : d ≡ dir = ok-injective (ap (λ r. r.0) h) in
          (
            s₁,
            e ∙ ap {B = Outcome String × S} (λ t. (ok t, s₁)) same,
            sym (ap (λ r. r.1) h) ∙ ap (λ t. env.dirs.remove_all t s₁) same,
          )
      go (fail (error y), s₁) e h = cc
      go (fail (panic y), s₁) e h = cc
      go (fail (fatal y), s₁) e h = cc

  -- Where a new process has nothing assigned, and each method of a client context sets its own field
  -- and no other, a call of `NewRootCmd` that returns has made a temporary directory and removed it
  -- again, and has then made an application whose home it is. The context that the command captures is
  -- what the client configuration made, on the world that this application left, of a context whose
  -- home is the node's default, and whose codec, registry, configuration of transactions and amino
  -- codec are those that the application was left with. They are coherent: the codec is made of the
  -- registry, and the configuration of transactions of the codec.
  pub new_root_cmd_lem :
      (laws : ContextLaws env)
      → ((dir : String) (s : S) → (env.temp_process dir s).built.places ≡ [])
      → (w : Cfg × S) (result : Result) (w' : Cfg × S)
      → new_root_cmd config host env make chain w ≡ (ok result, w')
      → (dir : String) × (s₁ : S) × (p : Process K S U) × (start : ClientContext (Value K) X)
        × (env.dirs.mkdir_temp "" "simd" w.1 ≡ (ok dir, s₁))
        × (new_chain_app host false (env.temp_process dir (env.dirs.remove_all dir s₁))
            ≡ (ok tt, p))
        × (env.read_from_client_config start p.built.rest ≡ (result.1, w'.1))
        × ((laws.view start).home ≡ env.default_node_home)
        × ((laws.view start).codec ≡ found (find Place.app_codec p.built.places))
        × ((laws.view start).registry ≡ found (find Place.interface_registry p.built.places))
        × ((laws.view start).amino ≡ found (find Place.legacy_amino p.built.places))
        × ((laws.view start).tx_config ≡ found (find Place.textual_tx_config p.built.places))
        × IsCoherent host.sdk Place.textual_tx_config (config_in (laws.view start))
  new_root_cmd_lem laws empty (c, s) result (c', s') e =
      let ran = new_root_cmd-Ran c s e in
      let (dir, s₁, removed, made, left) = temp_app-made s ran.made in
      let (s₀, there, gone) = temp_dir-made s removed in
      let encoding = encoding_config_of host ran.p in
      let view = initial_context-view config host env make chain laws encoding in
      (
        dir,
        s₀,
        ran.p,
        initial_context config host env make chain encoding,
        there,
        subst (λ t. new_chain_app host false (env.temp_process dir t) ≡ (ok tt, ran.p)) gone made,
        subst
            (λ t.
              env.read_from_client_config (initial_context config host env make chain encoding) t
              ≡ (result.1, s'))
            left ran.captured,
        ap (λ v. v.home) view,
        ap (λ v. v.codec) view ∙ (unfold encoding_config_of in refl),
        ap (λ v. v.registry) view ∙ (unfold encoding_config_of in refl),
        ap (λ v. v.amino) view ∙ (unfold encoding_config_of in refl),
        ap (λ v. v.tx_config) view ∙ (unfold encoding_config_of in refl),
        subst (IsCoherent host.sdk Place.textual_tx_config) (sym (ap config_in view)) (
            encoding_config_of-IsCoherent host false (env.temp_process dir s₁) ran.p (empty dir s₁)
              made),
      )
