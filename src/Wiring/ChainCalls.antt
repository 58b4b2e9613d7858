-- ===== src/Wiring/ChainCalls.antt =====
-- The calls of a whole run of `NewChainApp` of app/app.go, which are ready one after the other.
use vector_chain.Prelude.{
  ◌≡◌, refl, Bool, true, false, not, ◌&&◌, List, [], ◌∷◌, ◌++◌, if◌then◌else◌,
}
use vector_chain.Wiring.Calls.{Call}
use vector_chain.Wiring.Places.{Place}
use vector_chain.Wiring.Ready.{known, ready, after}
use vector_chain.Wiring.Program.Closing.{service_calls, snapshot_calls, post_calls, load_calls}
use vector_chain.Wiring.Construct.{construction_calls}

-- The calls that are made up to the snapshots, and then up to the end, by whether there is a manager
-- of snapshots.
unfoldable pub opening_calls : Bool → List Call
unfolding construction_calls service_calls snapshot_calls
opening_calls snapshots =
    (construction_calls ++ service_calls) ++ (if snapshots then snapshot_calls else [])

-- The calls of a run, by whether there is a manager of snapshots and the latest version is loaded.
unfoldable pub chain_app_calls : Bool → Bool → List Call
unfolding opening_calls post_calls load_calls
chain_app_calls snapshots load_latest =
    (opening_calls snapshots ++ post_calls) ++ (if load_latest then load_calls else [])

unfoldable pub distinct : List Place → Bool
unfolding known
distinct [] = true
distinct (p ∷ ps) = not (known p ps) && distinct ps

pub places-distinct :
    (snapshots load_latest : Bool)
    → distinct (after [] (chain_app_calls snapshots load_latest)) ≡ true
unfolding distinct after chain_app_calls
places-distinct true true = refl
places-distinct true false = refl
places-distinct false true = refl
places-distinct false false = refl

-- The scope of the fees has no call that assigns it.
pub fee_scope-unknown :
    (snapshots load_latest : Bool)
    → known Place.scoped_ibc_fee (after [] (chain_app_calls snapshots load_latest)) ≡ false
unfolding known after chain_app_calls
fee_scope-unknown true true = refl
fee_scope-unknown true false = refl
fee_scope-unknown false true = refl
fee_scope-unknown false false = refl

pub construction_ready : ready [] construction_calls ≡ true
unfolding ready construction_calls
construction_ready = refl

pub service_ready : ready (after [] construction_calls) service_calls ≡ true
unfolding ready after construction_calls service_calls
service_ready = refl

pub snapshots_ready : ready (after [] (construction_calls ++ service_calls)) snapshot_calls ≡ true
unfolding ready after construction_calls service_calls snapshot_calls
snapshots_ready = refl

pub post_ready : (snapshots : Bool) → ready (after [] (opening_calls snapshots)) post_calls ≡ true
unfolding ready after opening_calls post_calls
post_ready true = refl
post_ready false = refl

pub load_ready :
    (snapshots : Bool) → ready (after [] (opening_calls snapshots ++ post_calls)) load_calls ≡ true
unfolding ready after opening_calls post_calls load_calls
load_ready true = refl
load_ready false = refl
