-- ===== src/App/Blocks.antt =====
-- What the methods of `ChainApp` in app/app.go guarantee: the migration of the parameters is tried
-- once, and the init chain goes by the genesis that it was given.
use vector_chain.Prelude.{
  String, true, false, List, [], ◌∷◌, ◌≡◌, refl, sym, ap, ◌∙◌, subst, ◌⊎◌, inl, inr, Outcome, ok,
  fail, Failure, error, panic, fatal, or_panic, or_panic-eq-ok,
}
use vector_chain.Prelude.Actions.{
  ◌>>◌, lift, panicking, bind-cases, is_error, panicking-fail, panicking-ok, or_panic-fail,
}
use vector_chain.App.Lifecycle.{
  Runtime, ChainApp, on_params, ensure_params, finalize_block, init_chainer, finalize_blocks,
}

module _ {S Sub G Rq Rs Ir Br : Type 0} (rt : Runtime S Sub G Rq Rs Ir Br) where
  -- Blocks that the base application finalizes with nothing before them.
  unfoldable pub base_finalize_blocks : List Rq → S → List (Outcome Rs) × S
  base_finalize_blocks [] s = ([], s)
  base_finalize_blocks (req ∷ reqs) s =
      let (r, s') = rt.base_finalize_block req s in
      let (rs, s'') = base_finalize_blocks reqs s' in (r ∷ rs, s'')

  finalize_blocks-done :
      (reqs : List Rq) (app : ChainApp S)
      → app.once ≡ true
      → let (rs, s) = base_finalize_blocks reqs app.store in
        finalize_blocks rt reqs app ≡ (rs, record { once = true; store = s })
  unfolding finalize_blocks base_finalize_blocks finalize_block
  finalize_blocks-done [] app e = λ i. ([], record { once = e i; store = app.store })
  finalize_blocks-done (req ∷ reqs) app e =
      let (r, s) = rt.base_finalize_block req app.store in
      rw (e, finalize_blocks-done reqs (record { once = true; store = s }) refl) refl

  -- Whatever becomes of the first block of a process, a panic of the migration of the parameters
  -- included, the blocks after it are finalized by the base application alone: the parameters are
  -- looked for, and migrated, before the first block and never again.
  pub finalize_blocks_once :
      (req : Rq) (reqs : List Rq) (app : ChainApp S)
      → let (r, app') = finalize_block rt req app in
        let (rs, s) = base_finalize_blocks reqs app'.store in
        finalize_blocks rt (req ∷ reqs) app ≡ (r ∷ rs, record { once = true; store = s })
  unfolding finalize_blocks finalize_block
  finalize_blocks_once req reqs app =
      let first = finalize_block rt req app in
      ap (λ p. (first.0 ∷ p.0, p.1)) (finalize_blocks-done reqs first.1 refl)

  -- The query finds consensus parameters in the store.
  unfoldable pub HasParams : S → Type 0
  HasParams s = (s' : S) × (rt.consensus_params s ≡ (ok tt, s'))

  -- The function of `once` returns no error.
  ensure_params-fail :
      (s : S) {x : Failure} {s' : S} → ensure_params rt s ≡ (fail x, s') → is_error x ≡ false
  unfolding ensure_params
  ensure_params-fail s {x} {s'} h = go (rt.consensus_params s) h
    where
      go : (p : Outcome (Unit {0}) × S) → on_params rt p ≡ (fail x, s') → is_error x ≡ false
      go (ok u, s₁) h = cc
      go (fail (error e), s₁) h = panicking-fail _ s₁ h
      go (fail (panic e), s₁) h = or_panic-fail (fail (panic e)) (ap (λ p. p.0) h)
      go (fail (fatal e), s₁) h = or_panic-fail (fail (fatal e)) (ap (λ p. p.0) h)

  module _ (query_reads : (s : S) → (rt.consensus_params s).1 ≡ s)
      (migrates : (s s' : S)
        → rt.migrate_params (rt.get_subspace rt.baseapp_paramspace).0 s ≡ (ok tt, s')
        → HasParams s') where
    ensure_params-HasParams :
        (s s' : S) {u : Unit {0}} → ensure_params rt s ≡ (ok u, s') → HasParams s'
    unfolding ensure_params HasParams
    ensure_params-HasParams s s' {u} h = go (rt.consensus_params s) refl h
      where
        go :
            (p : Outcome (Unit {0}) × S)
            → rt.consensus_params s ≡ p
            → on_params rt p ≡ (ok u, s')
            → HasParams s'
        go (ok v, s₁) e h =
            let same : s ≡ s' = sym (query_reads s) ∙ ap (λ p. p.1) e ∙ ap (λ p. p.1) h in
            (s₁, subst (λ z. rt.consensus_params z ≡ (ok tt, s₁)) same e)
        go (fail (error x), s₁) e h = migrates s₁ s' (panicking-ok _ s₁ h)
        go (fail (panic x), s₁) e h = cc
        go (fail (fatal x), s₁) e h = cc

    -- Where the query for the parameters only reads, and a migration that succeeds leaves parameters
    -- in the store: the first block of a process is finalized by the base application on a store that
    -- has parameters, or ends in a panic before the base application runs.
    pub finalize_block-HasParams :
        (req : Rq) (app : ChainApp S)
        → app.once ≡ false
        → let (r, app') = finalize_block rt req app in
          ((s : S) × HasParams s × (rt.base_finalize_block req s ≡ (r, app'.store)))
          ⊎ ((x : Failure) × (ensure_params rt app.store ≡ (fail x, app'.store))
              × (r ≡ fail x)
              × (is_error x ≡ false))
    unfolding finalize_block
    finalize_block-HasParams req app e =
        rw e
          (elim (bind-cases (ensure_params rt) (λ _. rt.base_finalize_block req) app.store refl) [
            | inl (_, s, ensured, ran) ↦ inl (s, ensure_params-HasParams app.store s ensured, ran)
            | inr (x, failed, same) ↦ inr (x, failed, same, ensure_params-fail app.store failed)
          ])

  -- `InitChainer` ends as the genesis of the modules does, run on the genesis state that was parsed
  -- and on a store whose version map was just set; or else it panics, on a genesis state that does
  -- not parse or on a version map that is not set.
  pub init_chainer_lem :
      (app_state_bytes : String) (s : S)
      → let (r, s') = init_chainer rt app_state_bytes s in
        ((genesis : G) × (s₁ : S) × (rt.unmarshal_genesis app_state_bytes ≡ ok genesis)
          × (rt.set_module_version_map rt.get_version_map s ≡ (ok tt, s₁))
          × (rt.init_genesis genesis s₁ ≡ (r, s')))
        ⊎ ((x : Failure) × (r ≡ fail x) × (is_error x ≡ false))
  unfolding init_chainer
  init_chainer_lem app_state_bytes s =
      let parse = lift {D = S} (or_panic (rt.unmarshal_genesis app_state_bytes)) in
      let set = panicking (rt.set_module_version_map rt.get_version_map) in
      elim (bind-cases parse (λ genesis. set >> rt.init_genesis genesis) s refl) [
        | inr (x, failed, same) ↦
            inr
              (x, same, or_panic-fail (rt.unmarshal_genesis app_state_bytes) (ap (λ p. p.0) failed))
        | inl (genesis, s₀, parsed, h) ↦ elim (bind-cases set (λ _. rt.init_genesis genesis) s₀ h) [
          | inr (x, failed, same) ↦
              inr (x, same, panicking-fail (rt.set_module_version_map rt.get_version_map) s₀ failed)
          | inl (_, s₁, done, ran) ↦ inl (
            genesis,
            s₁,
            or_panic-eq-ok (rt.unmarshal_genesis app_state_bytes) (ap (λ p. p.0) parsed),
            subst (λ z. rt.set_module_version_map rt.get_version_map z ≡ (ok tt, s₁))
                (sym (ap (λ p. p.1) parsed))
                (panicking-ok (rt.set_module_version_map rt.get_version_map) s₀ done),
            ran,
          )
        ]
      ]
