-- ===== src/Wiring/ChainLawful.antt =====
-- The calls of a whole run of `NewChainApp` of app/app.go are lawful one after the other: which barriers
-- stand at each part of it.
use vector_chain.Prelude.{◌≡◌, refl, true, List, []}
use vector_chain.Wiring.Calls.{Effect}
use vector_chain.Wiring.Seals.{barrier, clear, lawful, seals_after}
use vector_chain.App.Modules.{
  Module, pre_blockers, begin_blockers, end_blockers, genesis_module_order,
}
use vector_chain.Wiring.Orders.{forgets_none}
use vector_chain.Wiring.Construct.{construction_calls}
use vector_chain.Wiring.Program.Closing.{service_calls, snapshot_calls, post_calls, load_calls}

-- The barriers that stand once the upgrades can be registered.
unfoldable pub construction_seals : List Effect
unfolding seals_after construction_calls
construction_seals = seals_after [] construction_calls

pub construction_seals_lem : seals_after [] construction_calls ≡ construction_seals
unfolding construction_seals
construction_seals_lem = refl

pub construction_lawful : lawful [] construction_calls ≡ true
unfolding lawful construction_calls pre_blockers begin_blockers end_blockers genesis_module_order
construction_lawful = refl

pub service_lawful : lawful construction_seals service_calls ≡ true
unfolding lawful construction_seals service_calls
service_lawful = refl

pub service_seals : seals_after construction_seals service_calls ≡ construction_seals
unfolding seals_after service_calls
service_seals = refl

pub ante_whole : (ms : List Module) → forgets_none Effect.set_ante_handler ms ≡ true
unfolding forgets_none
ante_whole ms = refl

pub ante_lawful : clear construction_seals (barrier Effect.set_ante_handler) ≡ true
unfolding construction_seals
ante_lawful = refl

pub snapshot_lawful : lawful construction_seals snapshot_calls ≡ true
unfolding lawful construction_seals snapshot_calls
snapshot_lawful = refl

pub snapshot_seals : seals_after construction_seals snapshot_calls ≡ construction_seals
unfolding seals_after snapshot_calls
snapshot_seals = refl

pub post_lawful : lawful construction_seals post_calls ≡ true
unfolding lawful construction_seals post_calls
post_lawful = refl

pub post_seals : seals_after construction_seals post_calls ≡ construction_seals
unfolding seals_after post_calls
post_seals = refl

pub load_lawful : lawful construction_seals load_calls ≡ true
unfolding lawful construction_seals load_calls
load_lawful = refl
