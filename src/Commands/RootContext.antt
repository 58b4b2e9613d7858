-- ===== src/Commands/RootContext.antt =====
-- The context that `NewRootCmd` of cmd/vectord/root.go makes, read off field by field.
use vector_chain.Prelude.{◌≡◌, ap, ◌∙◌, String}
use vector_chain.Commands.{Chain}
use vector_chain.Commands.Context.{ClientContext}
use vector_chain.Commands.Tree.{CommandMakers}
use vector_chain.Commands.Root.{SdkConfig, RootEnv, initial_context}
use vector_chain.Wiring.Calls.{Value}
use vector_chain.Wiring.Construct.{Host}
use vector_chain.Wiring.Encoding.{EncodingConfig}

-- What is read off a client context.
pub record ContextView (K : Type 0) : Type 0 where
  pub codec : Value K
  pub registry : Value K
  pub tx_config : Value K
  pub amino : Value K
  pub home : String

-- What is documented of the methods of `client.Context`: each sets its field and keeps the others.
pub record ContextLaws {K S U X M O Codec Cmd : Type 0} (env : RootEnv K S U X M O Codec Cmd)
    : Type 0 where
  pub view : ClientContext (Value K) X → ContextView K
  pub codec_set :
      (v : Value K) (ctx : ClientContext (Value K) X)
      → view (env.with_codec v ctx) ≡ record (view ctx) { codec = v }
  pub registry_set :
      (v : Value K) (ctx : ClientContext (Value K) X)
      → view (env.with_interface_registry v ctx) ≡ record (view ctx) { registry = v }
  pub tx_config_set :
      (v : Value K) (ctx : ClientContext (Value K) X)
      → view (record ctx { tx_config = v }) ≡ record (view ctx) { tx_config = v }
  pub amino_set :
      (v : Value K) (ctx : ClientContext (Value K) X)
      → view (env.with_legacy_amino v ctx) ≡ record (view ctx) { amino = v }
  pub input_keeps : (ctx : ClientContext (Value K) X) → view (env.with_input ctx) ≡ view ctx
  pub retriever_keeps :
      (ctx : ClientContext (Value K) X) → view (env.with_account_retriever ctx) ≡ view ctx
  pub home_set :
      (home : String) (ctx : ClientContext (Value K) X)
      → view (env.with_home_dir home ctx) ≡ record (view ctx) { home = home }
  pub viper_keeps :
      (prefix : String) (ctx : ClientContext (Value K) X)
      → view (env.with_viper prefix ctx) ≡ view ctx

-- The encoding configuration of what is read off.
abbrev pub config_in : {K : Type 0} → ContextView K → EncodingConfig K
config_in v = record {
  interface_registry = v.registry;
  codec = v.codec;
  tx_config = v.tx_config;
  amino = v.amino;
}

module _ {Cfg K S U X M O Codec Cmd C E BaseOption : Type 0} (config : SdkConfig Cfg)
    (host : Host K S U) (env : RootEnv K S U X M O Codec Cmd)
    (make : CommandMakers Cmd (Value K) (Value K) C E) (chain : Chain C E BaseOption) where
  pub initial_context-view :
      (laws : ContextLaws env) (encoding : EncodingConfig K)
      → laws.view (initial_context config host env make chain encoding) ≡ record {
        codec = encoding.codec;
        registry = encoding.interface_registry;
        tx_config = encoding.tx_config;
        amino = encoding.amino;
        home = env.default_node_home;
      }
  unfolding initial_context
  initial_context-view laws encoding =
      let c₁ = env.with_codec encoding.codec env.empty_context in
      let c₂ = env.with_interface_registry encoding.interface_registry c₁ in
      let c₃ = record c₂ { tx_config = encoding.tx_config } in
      let c₄ = env.with_legacy_amino encoding.amino c₃ in
      let c₅ = env.with_account_retriever (env.with_input c₄) in
      let c₆ = env.with_home_dir env.default_node_home c₅ in
      let e₁ = laws.codec_set encoding.codec env.empty_context in
      let e₂ =
        laws.registry_set encoding.interface_registry c₁
        ∙ ap {A = ContextView K} {B = ContextView K}
            (λ v. record v { registry = encoding.interface_registry }) e₁ in
      let e₃ =
        laws.tx_config_set encoding.tx_config c₂
        ∙ ap {A = ContextView K} {B = ContextView K}
            (λ v. record v { tx_config = encoding.tx_config }) e₂ in
      let e₄ =
        laws.amino_set encoding.amino c₃
        ∙ ap {A = ContextView K} {B = ContextView K} (λ v. record v { amino = encoding.amino })
            e₃ in
      let e₅ = laws.retriever_keeps (env.with_input c₄) ∙ laws.input_keeps c₄ ∙ e₄ in
      let e₆ =
        laws.home_set env.default_node_home c₅
        ∙ ap {A = ContextView K} {B = ContextView K}
            (λ v. record v { home = env.default_node_home }) e₅ in
      laws.viper_keeps "" c₆ ∙ e₆
