-- ===== src/Wiring/Encoding.antt =====
-- The encoding configurations: that of a temporary application (app/encoding.go) and that of
-- app/params/proto.go, which is made without one.
use vector_chain.Prelude.{
  ◌≡◌, refl, sym, ap, ◌∙◌, Bool, true, some, List, [], ◌∷◌, ok, get_elem?, subst, ok-injective,
}
use vector_chain.Prelude.Actions.{Action, ◌>>=◌, bind-passes}
use vector_chain.Wiring.Places.{Place}
use vector_chain.Wiring.Calls.{
  Value, object, Effect, Call, assign, Argument, eval, eval_all, outside, place, find, found, Sdk,
  Built, run_calls,
}
use vector_chain.Wiring.Program.Terms.{account_prefix}
use vector_chain.Wiring.Ready.{ready, assigned}
use vector_chain.Wiring.Extends.{Extends-refl}
use vector_chain.Wiring.Wired.{Wired, AllWired, run_calls-AllWired}
use vector_chain.Wiring.Seals.{lawful}
use vector_chain.Wiring.Returns.{Succeeds, run_calls-Returns}
use vector_chain.Wiring.Construct.{Host, Process, new_chain_app}
use vector_chain.Wiring.ChainCalls.{chain_app_calls}
use vector_chain.Wiring.ChainApp.{new_chain_app-Wired}
use vector_chain.Wiring.Steps.{Works}
use vector_chain.Wiring.ChainReturns.{new_chain_app-Returns}
use vector_chain.Wiring.Packets.{call_of, All-call_of, place_argument}

-- `params.EncodingConfig`
pub record EncodingConfig (K : Type 0) : Type 0 where
  pub interface_registry : Value K
  pub codec : Value K
  pub tx_config : Value K
  pub amino : Value K

module _ {K : Type 0} where
  abbrev pub value_at : Place → List (Place × K) → Value K
  value_at p ps = found (find p ps)

module _ {K S U : Type 0} (host : Host K S U) where
  -- `makeEncodingConfig`: the getters of the application. `app.txConfig` is the one that was made
  -- last.
  unfoldable pub encoding_config_of : Process K S U → EncodingConfig K
  encoding_config_of p = record {
    interface_registry = value_at Place.interface_registry p.built.places;
    codec = value_at Place.app_codec p.built.places;
    tx_config = value_at Place.textual_tx_config p.built.places;
    amino = value_at Place.legacy_amino p.built.places;
  }

  abbrev pub read_config : Unit {0} → Action (Process K S U) (EncodingConfig K)
  read_config _ p = (ok (encoding_config_of p), p)

  -- `MakeEncodingConfig` of app/encoding.go: the temporary application loads its latest version.
  unfoldable pub make_encoding_config : Action (Process K S U) (EncodingConfig K)
  unfolding encoding_config_of
  make_encoding_config = new_chain_app host true >>= read_config

-- `MakeEncodingConfig` of app/params/proto.go.
unfoldable pub proto_calls : List Call
proto_calls =
    assign Place.legacy_amino [] ""
    ∷ assign Place.interface_registry
        (outside "proto.HybridResolver"
          ∷ account_prefix
          ∷ outside "sdk.GetConfig().GetBech32ValidatorAddrPrefix()"
          ∷ [])
        ""
    ∷ assign Place.app_codec (place Place.interface_registry ∷ []) ""
    ∷ assign Place.tx_config (place Place.app_codec ∷ outside "tx.DefaultSignModes" ∷ []) ""
    ∷ []

abbrev pub read_proto_config : {K S : Type 0} → Unit {0} → Action (Built K S) (EncodingConfig K)
read_proto_config _ b = (
  ok (record {
    interface_registry = value_at Place.interface_registry b.places;
    codec = value_at Place.app_codec b.places;
    tx_config = value_at Place.tx_config b.places;
    amino = value_at Place.legacy_amino b.places;
  }),
  b,
)

module _ {K S : Type 0} (sdk : Sdk K S) where
  unfoldable pub make_proto_config : Action (Built K S) (EncodingConfig K)
  unfolding proto_calls
  make_proto_config = run_calls sdk proto_calls >>= read_proto_config

  -- The codec of the configuration is made of its registry, and its configuration of transactions,
  -- which is the value of `p`, of its codec.
  abbrev pub IsCoherent : Place → EncodingConfig K → Type 0
  IsCoherent p config =
      (registry : K) × (codec : K) × (tx_config : K) × (amino : K) × (config.interface_registry
        ≡ object registry)
      × (config.codec ≡ object codec)
      × (config.tx_config ≡ object tx_config)
      × (config.amino ≡ object amino)
      × ((s : S) × (s' : S) × (sdk.make Place.app_codec (object registry ∷ []) s ≡ (ok codec, s')))
      × ((vs : List (Value K)) × (s : S) × (s' : S) × (get_elem? vs 0 ≡ some (object codec))
          × (sdk.make p vs s ≡ (ok tx_config, s')))

  -- From the wired calls of the four places.
  coherent :
      (p : Place) (ps : List (Place × K)) (as₁ as₂ : List Argument)
      → Wired sdk ps (assign Place.interface_registry as₁ "")
      → Wired sdk ps (assign Place.app_codec (place Place.interface_registry ∷ []) "")
      → Wired sdk ps (assign Place.legacy_amino [] "")
      → Wired sdk ps (assign p as₂ "")
      → get_elem? as₂ 0 ≡ some (place Place.app_codec)
      → IsCoherent p (record {
        interface_registry = value_at Place.interface_registry ps;
        codec = value_at Place.app_codec ps;
        tx_config = value_at p ps;
        amino = value_at Place.legacy_amino ps;
      })
  unfolding Wired eval_all eval
  coherent p ps as₁ as₂ (r, _, _, _, r_at, _, _, _) (c, vs, s, s', c_at, c_read, _, c_made)
        (m, _, _, _, m_at, _, _, _) (t, ts, u, u', t_at, t_read, _, t_made) codec_first =
      let given : vs ≡ object r ∷ [] = sym (ok-injective c_read) ∙ ap (λ o. found o ∷ []) r_at in
      (
        r,
        c,
        t,
        m,
        ap found r_at,
        ap found c_at,
        ap found t_at,
        ap found m_at,
        (s, s', subst (λ l. sdk.make Place.app_codec l s ≡ (ok c, s')) given c_made),
        (
          ts,
          u,
          u',
          place_argument sdk ps as₂ ts 0 Place.app_codec c t_read codec_first c_at,
          t_made,
        ),
      )

  proto_ready : ready [] proto_calls ≡ true
  unfolding ready proto_calls
  proto_ready = refl

  proto_lawful : (seals : List Effect) → lawful seals proto_calls ≡ true
  unfolding lawful proto_calls
  proto_lawful seals = refl

  -- Where the calls outside return as `Succeeds` says, app/params/proto.go makes a configuration whose
  -- codec is made of its registry, and whose configuration of transactions is made of its codec.
  make_proto_config-IsCoherent :
      Succeeds sdk
      → (b : Built K S) → b.places ≡ []
      → (config : EncodingConfig K) × (b' : Built K S) × (make_proto_config b ≡ (ok config, b'))
        × IsCoherent Place.tx_config config
  unfolding make_proto_config AllWired proto_calls
  make_proto_config-IsCoherent succeeds b empty =
      let is_ready = subst (λ ps. ready (assigned ps) proto_calls ≡ true) (sym empty) proto_ready in
      let (b', e, _) =
        run_calls-Returns sdk succeeds proto_calls b is_ready
          (proto_lawful (succeeds.seals b.rest)) in
      let (_, wired, _) = run_calls-AllWired sdk proto_calls b b' is_ready e in
      let (w₁, (w₂, (w₃, (w₄, _)))) = wired b'.places (Extends-refl b'.places) in
      (
        _,
        b',
        bind-passes (run_calls sdk proto_calls) read_proto_config b e,
        coherent Place.tx_config b'.places _ _ w₂ w₃ w₁ w₄ refl,
      )

module _ {K S U : Type 0} (host : Host K S U) where
  -- Whether the latest version is loaded or not, an application that was made has a coherent encoding
  -- configuration.
  pub encoding_config_of-IsCoherent :
      (load_latest : Bool) (p p' : Process K S U)
      → p.built.places ≡ []
      → new_chain_app host load_latest p ≡ (ok tt, p')
      → IsCoherent host.sdk Place.textual_tx_config (encoding_config_of host p')
  unfolding encoding_config_of call_of chain_app_calls
  encoding_config_of-IsCoherent load_latest p p' empty e =
      let (snapshots, wired, _, _, _) = new_chain_app-Wired host load_latest p p' empty e in
      let all = λ (q : Place).
        All-call_of (Wired host.sdk p'.built.places) q (chain_app_calls snapshots load_latest)
          wired in
      coherent host.sdk Place.textual_tx_config p'.built.places _ _ (all Place.interface_registry)
        (all Place.app_codec) (all Place.legacy_amino) (all Place.textual_tx_config) refl

  -- Where the calls outside return as `Works` says, and nothing is assigned nor sealed before, a
  -- temporary application is made, and its configuration is coherent:
  -- its codec is made of its registry, and its configuration of transactions, which is the one with
  -- the textual sign mode, is made of its codec.
  pub make_encoding_config-IsCoherent :
      (works : Works host) (p : Process K S U)
      → p.built.places ≡ []
      → works.succeeds.seals p.built.rest ≡ []
      → (config : EncodingConfig K) × (p' : Process K S U) × (make_encoding_config host p
          ≡ (ok config, p'))
        × IsCoherent host.sdk Place.textual_tx_config config
  unfolding make_encoding_config
  make_encoding_config-IsCoherent works p empty unsealed =
      let (p', e) = new_chain_app-Returns host works true p empty unsealed in
      (
        encoding_config_of host p',
        p',
        bind-passes (new_chain_app host true) (read_config host) p e,
        encoding_config_of-IsCoherent true p p' empty e,
      )
