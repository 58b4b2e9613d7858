-- ===== src/App/Lifecycle.antt =====
-- The methods of `ChainApp` in app/app.go that change the state of the chain: `FinalizeBlock`,
-- `InitChainer`, the blockers, `LoadHeight`, with the lookups that they use.
use vector_chain.Prelude.{
  ℕ, String, Bool, true, List, [], ◌∷◌, if◌then◌else◌, Outcome, ok, fail, error, panic, fatal,
  or_panic,
}
use vector_chain.Prelude.Actions.{Action, ◌>>=◌, ◌>>◌, lift, panicking}
use vector_chain.Upgrades.{VersionMap}

-- What the methods call of the SDK. `S` is the store, `Sub` a parameter subspace, `G` a genesis
-- state; a request to finalize a block and its response are `Rq` and `Rs`, what the init chain gives
-- is `Ir`, a blocker's response `Br`.
pub record Runtime (S Sub G Rq Rs Ir Br : Type 0) : Type 0 where
  -- the query for the consensus parameters
  pub consensus_params : Action S (Unit {0})
  pub get_subspace : String → Sub × Bool
  pub baseapp_paramspace : String
  pub migrate_params : Sub → Action S (Unit {0})
  pub base_finalize_block : Rq → Action S Rs
  pub unmarshal_genesis : String → Outcome G
  pub get_version_map : VersionMap
  pub set_module_version_map : VersionMap → Action S (Unit {0})
  pub init_genesis : G → Action S Ir
  pub pre_block : Action S Br
  pub begin_block : Action S Br
  pub end_block : Action S Br
  pub load_version : ℕ → Action S (Unit {0})

-- The chain, as far as its methods change it: `once` has run, and the store.
pub record ChainApp (S : Type 0) : Type 0 where
  pub once : Bool
  pub store : S

module _ {S Sub G Rq Rs Ir Br : Type 0} (rt : Runtime S Sub G Rq Rs Ir Br) where
  unfoldable pub get_subspace : String → Sub
  get_subspace module_name = (rt.get_subspace module_name).0

  -- Where the parameters are not found, they are migrated.
  abbrev pub on_params : Outcome (Unit {0}) × S → Outcome (Unit {0}) × S
  on_params (fail (error e), s) =
      panicking (rt.migrate_params (rt.get_subspace rt.baseapp_paramspace).0) s
  on_params (ok u, s) = (ok tt, s)
  on_params (fail (panic e), s) = (fail (panic e), s)
  on_params (fail (fatal e), s) = (fail (fatal e), s)

  -- The function that `app.once.Do` is given.
  unfoldable pub ensure_params : Action S (Unit {0})
  ensure_params s = on_params (rt.consensus_params s)

  -- `once` is done when its function has returned, and also when it has panicked.
  unfoldable pub finalize_block : Rq → ChainApp S → Outcome Rs × ChainApp S
  unfolding ensure_params
  finalize_block req app =
      let (r, s) =
        if app.once
        then rt.base_finalize_block req app.store
        else (ensure_params >> rt.base_finalize_block req) app.store in
      (r, record { once = true; store = s })

  unfoldable pub init_chainer : String → Action S Ir
  init_chainer app_state_bytes = do
    genesis_state ← lift (or_panic (rt.unmarshal_genesis app_state_bytes))
    panicking (rt.set_module_version_map rt.get_version_map)
    rt.init_genesis genesis_state

  abbrev pub pre_blocker : Action S Br
  pre_blocker = rt.pre_block

  abbrev pub begin_blocker : Action S Br
  begin_blocker = rt.begin_block

  abbrev pub end_blocker : Action S Br
  end_blocker = rt.end_block

  abbrev pub load_height : ℕ → Action S (Unit {0})
  load_height height = rt.load_version height

  -- Blocks one after the other, the engine going on whatever becomes of one of them.
  unfoldable pub finalize_blocks : List Rq → ChainApp S → List (Outcome Rs) × ChainApp S
  finalize_blocks [] app = ([], app)
  finalize_blocks (req ∷ reqs) app =
      let (r, app') = finalize_block req app in
      let (rs, app'') = finalize_blocks reqs app' in (r ∷ rs, app'')
