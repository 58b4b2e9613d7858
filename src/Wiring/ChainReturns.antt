-- ===== src/Wiring/ChainReturns.antt =====
-- When `NewChainApp` of app/app.go returns an application.
use vector_chain.Prelude.{◌≡◌, ap, ◌∙◌, Bool, List, [], ◌++◌, ok}
use vector_chain.Prelude.Actions.{Action, ◌>>◌, bind-passes}
use vector_chain.Wiring.Calls.{Call}
use vector_chain.Wiring.Ready.{after, assigned}
use vector_chain.Wiring.ChainCalls.{
  opening_calls, construction_ready, service_ready, post_ready, load_ready,
}
use vector_chain.Wiring.Reached.{
  Reached, run-Reached, kept-Reached, Keeps-ok, register_upgrades-Keeps, set_ante-Keeps,
  extend_snapshots-Reached,
}
use vector_chain.Wiring.Construct.{
  construction_calls, Host, Process, run, register_upgrades, set_ante, extend_snapshots, load_app,
  new_chain_app,
}
use vector_chain.Wiring.Program.Closing.{service_calls, post_calls}
use vector_chain.Wiring.ChainLawful.{
  construction_seals, construction_seals_lem, construction_lawful, service_lawful, service_seals,
  post_lawful, post_seals,
}
use vector_chain.Wiring.Steps.{
  Works, seals_of, Returns, run-Returns, register_upgrades-Returns, set_ante-Returns,
  extend_snapshots-Returns, load_app-Returns,
}

module _ {K S U : Type 0} (host : Host K S U) (works : Works host) where
  -- Two actions return, and what comes next goes on.
  Both :
      Action (Process K S U) (Unit {0})
      → Action (Process K S U) (Unit {0})
      → List Call
      → Process K S U
      → Type 0
  Both m n cs p =
      (p' : Process K S U) × Reached host cs p'
      × (seals_of host works p' ≡ construction_seals)
      × ((next : Action (Process K S U) (Unit {0})) → (m >> (n >> next)) p ≡ next p')

  construction-Returns :
      (p : Process K S U)
      → p.built.places ≡ []
      → seals_of host works p ≡ []
      → Both (run host construction_calls) (register_upgrades host) construction_calls p
  unfolding Both Returns Reached after
  construction-Returns p empty unsealed =
      let start : Reached host [] p = (ap assigned empty, (λ rs later. tt)) in
      let (p₁, e₁, s₁) =
        run-Returns host works [] construction_calls [] construction_seals p start unsealed
          construction_ready construction_lawful construction_seals_lem in
      let constructed = run-Reached host [] construction_calls p p₁ start construction_ready e₁ in
      let (p₂, e₂, s₂) = register_upgrades-Returns host works p₁ constructed in
      (
        p₂,
        kept-Reached host construction_calls p₁ p₂
            (Keeps-ok host (register_upgrades host) (register_upgrades-Keeps host) e₂) constructed,
        s₂ ∙ s₁,
        (λ next.
            bind-passes (run host construction_calls) (λ _. register_upgrades host >> next) p e₁
            ∙ bind-passes (register_upgrades host) (λ _. next) p₁ e₂),
      )

  service-Returns :
      (p : Process K S U)
      → Reached host construction_calls p
      → seals_of host works p ≡ construction_seals
      → Both (run host service_calls) (set_ante host) (construction_calls ++ service_calls) p
  unfolding Both Returns
  service-Returns p upgraded at =
      let (p₁, e₁, s₁) =
        run-Returns host works construction_calls service_calls construction_seals
          construction_seals p upgraded at service_ready service_lawful service_seals in
      let finished =
        run-Reached host construction_calls service_calls p p₁ upgraded service_ready e₁ in
      let (p₂, e₂, s₂) = set_ante-Returns host works p₁ finished s₁ in
      (
        p₂,
        kept-Reached host (construction_calls ++ service_calls) p₁ p₂
            (Keeps-ok host (set_ante host) (set_ante-Keeps host) e₂) finished,
        s₂,
        (λ next.
            bind-passes (run host service_calls) (λ _. set_ante host >> next) p e₁
            ∙ bind-passes (set_ante host) (λ _. next) p₁ e₂),
      )

  closing-Returns :
      (load_latest : Bool) (p : Process K S U)
      → Reached host (construction_calls ++ service_calls) p
      → seals_of host works p ≡ construction_seals
      → (p' : Process K S U) × ((extend_snapshots host
              >> (run host post_calls >> load_app host load_latest))
            p
          ≡ (ok tt, p'))
  unfolding Returns
  closing-Returns load_latest p guarded at =
      let (p₁, e₁, s₁) = extend_snapshots-Returns host works p guarded at in
      let (snapshots, opened) = extend_snapshots-Reached host p p₁ guarded e₁ in
      let (p₂, e₂, s₂) =
        run-Returns host works (opening_calls snapshots) post_calls construction_seals
          construction_seals p₁ opened s₁ (post_ready snapshots) post_lawful post_seals in
      let posted =
        run-Reached host (opening_calls snapshots) post_calls p₁ p₂ opened (post_ready snapshots)
          e₂ in
      let (p', e₃) =
        load_app-Returns host works load_latest (opening_calls snapshots ++ post_calls) p₂ posted s₂
          (load_ready snapshots) in
      (
        p',
        bind-passes (extend_snapshots host) (λ _. run host post_calls >> load_app host load_latest)
              p e₁
            ∙ bind-passes (run host post_calls) (λ _. load_app host load_latest) p₁ e₂
            ∙ e₃,
      )

  pub new_chain_app-Returns :
      (load_latest : Bool) (p : Process K S U)
      → p.built.places ≡ []
      → works.succeeds.seals p.built.rest ≡ []
      → (p' : Process K S U) × (new_chain_app host load_latest p ≡ (ok tt, p'))
  unfolding new_chain_app Both
  new_chain_app-Returns load_latest p empty unsealed =
      let (p₁, constructed, s₁, first) = construction-Returns p empty unsealed in
      let (p₂, served', s₂, second) = service-Returns p₁ constructed s₁ in
      let (p', closed) = closing-Returns load_latest p₂ served' s₂ in
      let closing = extend_snapshots host >> (run host post_calls >> load_app host load_latest) in
      (p', first (run host service_calls >> (set_ante host >> closing)) ∙ second closing ∙ closed)
