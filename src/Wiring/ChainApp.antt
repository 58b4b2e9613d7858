-- ===== src/Wiring/ChainApp.antt =====
-- How `NewChainApp` of app/app.go ends: what holds of the application that it returns.
use vector_chain.Prelude.{◌≡◌, ap, ◌∙◌, Bool, true, none, [], ◌++◌, ok, All}
use vector_chain.Prelude.Actions.{◌>>◌, bind-ok}
use vector_chain.Wiring.Places.{Place}
use vector_chain.Wiring.Calls.{find}
use vector_chain.Wiring.Ready.{known, after, assigned, find-unknown}
use vector_chain.Wiring.Extends.{Extends-refl}
use vector_chain.Wiring.Wired.{Wired}
use vector_chain.Wiring.Order.{InOrder, chain_app_calls-InOrder}
use vector_chain.Wiring.Program.Closing.{service_calls, post_calls}
use vector_chain.Wiring.ChainCalls.{
  distinct, places-distinct, fee_scope-unknown, opening_calls, chain_app_calls, construction_ready,
  service_ready, post_ready, load_ready,
}
use vector_chain.Wiring.Reached.{
  Reached, run-Reached, kept-Reached, Keeps-ok, register_upgrades-Keeps, set_ante-Keeps,
  extend_snapshots-Reached, load_app-Reached,
}
use vector_chain.Wiring.Construct.{
  construction_calls, Host, Process, run, register_upgrades, set_ante, extend_snapshots, load_app,
  new_chain_app,
}

module _ {K S U : Type 0} (host : Host K S U) where
  pub new_chain_app-Wired :
      (load_latest : Bool) (p p' : Process K S U)
      → p.built.places ≡ []
      → new_chain_app host load_latest p ≡ (ok tt, p')
      → (snapshots : Bool) × All
          (Wired host.sdk p'.built.places)
          (chain_app_calls snapshots load_latest)
        × InOrder (chain_app_calls snapshots load_latest)
        × (distinct (assigned p'.built.places) ≡ true)
        × (find Place.scoped_ibc_fee p'.built.places ≡ none)
  unfolding new_chain_app Reached after
  new_chain_app-Wired load_latest p p' empty e =
      let c₅ = load_app host load_latest in
      let c₄ = run host post_calls >> c₅ in
      let c₃ = extend_snapshots host >> c₄ in
      let c₂ = set_ante host >> c₃ in
      let c₁ = run host service_calls >> c₂ in
      let c₀ = register_upgrades host >> c₁ in
      let (_, p₁, e₁, r₁) = bind-ok (run host construction_calls) (λ _. c₀) p e in
      let (_, p₂, e₂, r₂) = bind-ok (register_upgrades host) (λ _. c₁) p₁ r₁ in
      let (_, p₃, e₃, r₃) = bind-ok (run host service_calls) (λ _. c₂) p₂ r₂ in
      let (_, p₄, e₄, r₄) = bind-ok (set_ante host) (λ _. c₃) p₃ r₃ in
      let (_, p₅, e₅, r₅) = bind-ok (extend_snapshots host) (λ _. c₄) p₄ r₄ in
      let (_, p₆, e₆, r₆) = bind-ok (run host post_calls) (λ _. c₅) p₅ r₅ in
      let start : Reached host [] p = (ap assigned empty, (λ rs later. tt)) in
      let constructed = run-Reached host [] construction_calls p p₁ start construction_ready e₁ in
      let upgraded =
        kept-Reached host construction_calls p₁ p₂
          (Keeps-ok host (register_upgrades host) (register_upgrades-Keeps host) e₂) constructed in
      let served =
        run-Reached host construction_calls service_calls p₂ p₃ upgraded service_ready e₃ in
      let guarded =
        kept-Reached host (construction_calls ++ service_calls) p₃ p₄
          (Keeps-ok host (set_ante host) (set_ante-Keeps host) e₄) served in
      let (snapshots, opened) = extend_snapshots-Reached host p₄ p₅ guarded e₅ in
      let posted =
        run-Reached host (opening_calls snapshots) post_calls p₅ p₆ opened (post_ready snapshots)
          e₆ in
      let loaded =
        load_app-Reached host load_latest (opening_calls snapshots ++ post_calls) p₆ p' posted
          (load_ready snapshots) r₆ in
      let names : assigned p'.built.places ≡ after [] (chain_app_calls snapshots load_latest) =
        unfold chain_app_calls in loaded.0 in
      (
        snapshots,
        (unfold chain_app_calls in loaded.1 p'.built.places (Extends-refl p'.built.places)),
        chain_app_calls-InOrder snapshots load_latest,
        ap distinct names ∙ places-distinct snapshots load_latest,
        find-unknown Place.scoped_ibc_fee p'.built.places
            (ap (known Place.scoped_ibc_fee) names ∙ fee_scope-unknown snapshots load_latest),
      )
