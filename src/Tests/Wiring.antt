-- ===== src/Tests/Wiring.antt =====
-- The construction of the application on a host whose objects are the ways of packets.
use vector_chain.Prelude.{
  ℕ, ◌+◌, ◌≡◌, refl, sym, ap, ◌∙◌, Bool, true, false, Option, none, some, List, [], ◌∷◌, ok, fail,
  panic, Outcome, ok-injective, get_elem?,
}
use mathlib.Core.List.{reverse}
use vector_chain.Upgrades.{Plan, ModuleManager, chain_upgrades}
use vector_chain.Wiring.Places.{Place}
use vector_chain.Wiring.Stores.{Store}
use vector_chain.Wiring.Orders.{forgets_none, all_named}
use vector_chain.Wiring.Seals.{place_barrier, barrier, sealed_by, clear}
use vector_chain.Wiring.Calls.{Effect, Value, nil, object, constant, Sdk, find}
use vector_chain.Wiring.Wired.{Wired}
use vector_chain.Wiring.Construct.{construction_calls, Host, Process, new_chain_app}
use vector_chain.Wiring.ChainCalls.{chain_app_calls}
use vector_chain.Wiring.Steps.{Works}
use vector_chain.Wiring.ChainReturns.{new_chain_app-Returns}
use vector_chain.Wiring.Owners.{owners, construction_calls-owners}
use vector_chain.Wiring.Order.{InOrder, chain_app_calls-InOrder}
use vector_chain.Wiring.Packets.{
  Layer, forwards, fees, limits, transfers, Layers, new_chain_app-handles,
}
use vector_chain.Wiring.Encoding.{
  EncodingConfig, make_encoding_config, IsCoherent, make_encoding_config-IsCoherent,
}

-- What comes in passes the first list, what goes out the second.
abbrev pub Ways : Type 0
Ways = List Layer × List Layer

abbrev ways_of : Option (Value Ways) → Ways
ways_of none = ([], [])
ways_of (some nil) = ([], [])
ways_of (some (object k)) = k
ways_of (some (constant a)) = ([], [])

abbrev made : Place → List (Value Ways) → Ways
made Place.transfer_module vs = (transfers ∷ [], [])
made Place.limited_transfer vs = (limits ∷ (ways_of (get_elem? vs 1)).0, [])
made Place.fee_transfer vs = (fees ∷ (ways_of (get_elem? vs 0)).0, [])
made Place.transfer_stack vs = (forwards ∷ (ways_of (get_elem? vs 0)).0, [])
made Place.transfer vs = ([], transfers ∷ (ways_of (get_elem? vs 3)).1)
made Place.rate_limit vs = ([], limits ∷ (ways_of (get_elem? vs 6)).1)
made Place.ibc_fee vs = ([], fees ∷ (ways_of (get_elem? vs 2)).1)
made _ vs = ([], [])

-- The rest is what has been sealed; what comes after its barrier, or forgets a module, panics.
abbrev unless :
    {A : Type 0} → Bool → Outcome A × List Effect → List Effect → Outcome A × List Effect
unless true r s = r
unless false r s = (fail (panic "sealed"), s)

abbrev sdk : Sdk Ways (List Effect)
sdk = record {
  make = λ p vs s. unless (clear s (place_barrier p)) (ok (made p vs), s) s;
  act = λ e vs s.
      unless (forgets_none e (all_named vs)) (unless (clear s (barrier e)) (ok tt, sealed_by e s) s)
        s;
  part_of = λ x k. ([], []);
}

abbrev Manager : Type 0
Manager = ModuleManager (List Effect) (Value Ways) (List (Value Ways))

abbrev plan : Plan
plan = record { name = ""; height = 0; info = "" }

abbrev pub host : Host Ways (List Effect) ℕ
host = record {
  sdk = sdk;
  as_manager = λ v. record {
    run_migrations = λ s configurator from_vm. (ok from_vm, s);
    get_version_map = [];
  };
  upgrade_keeper = record {
    set_upgrade_handler = λ name handler k. k + 1;
    read_upgrade_info_from_disk = λ k. ok plan;
    is_skip_height = λ height k. false;
  };
  get_gas_register = λ keeper. ok (object ([], []));
  chain_ante_decorators = λ decorators. ([], []);
  as_wasm_config = λ v. record { simulation_gas_limit = none };
  has_snapshot_manager = λ s. true;
}

abbrev pub works : Works host
works = record {
  succeeds = record {
    seals = λ s. s;
    makes = λ p vs s set free. (made p vs, s, rw free refl, refl);
    acts = λ e vs s set whole free. (sealed_by e s, rw (whole, free) refl, refl);
  };
  register = λ v. (object ([], []), refl);
  plan = λ k. (plan, refl);
}

abbrev pub empty : Process Ways (List Effect) ℕ
empty = record {
  built = record { places = []; rest = [] };
  upgrades = record {
    upgrades = chain_upgrades;
    upgrade_keeper = 0;
    version = "v2";
    store_loader = none;
  };
}

returned : (p' : Process Ways (List Effect) ℕ) × (new_chain_app host true empty ≡ (ok tt, p'))
returned = new_chain_app-Returns host works true empty refl refl

construction_calls-owners_example : owners Store.mint construction_calls ≡ 1
construction_calls-owners_example = construction_calls-owners Store.mint

chain_app_calls-InOrder_applied : InOrder (chain_app_calls true false)
chain_app_calls-InOrder_applied = chain_app_calls-InOrder true false

from_made :
    (p : Place) (vs : List (Value Ways)) (s s' : List Effect) {k : Ways}
    → sdk.make p vs s ≡ (ok k, s')
    → k ≡ made p vs
from_made p vs s s' {k} e = go (clear s (place_barrier p)) (ap (λ r. r.0) e)
  where
    go : (b : Bool) → (unless b (ok (made p vs), s) s).0 ≡ ok k → k ≡ made p vs
    go true h = sym (ok-injective h)
    go false h = cc

layers : Layers sdk
layers = record {
  handles = λ k. k.0;
  sends = λ k. k.1;
  module_handles = λ vs s s' k e. ap (λ w. w.0) (from_made Place.transfer_module vs s s' e);
  limited_handles = λ vs s s' k inner at e.
      ap (λ w. w.0) (from_made Place.limited_transfer vs s s' e)
      ∙ ap (λ o. limits ∷ (ways_of o).0) at;
  fee_handles = λ vs s s' k inner at e.
      ap (λ w. w.0) (from_made Place.fee_transfer vs s s' e) ∙ ap (λ o. fees ∷ (ways_of o).0) at;
  stack_handles = λ vs s s' k inner at e.
      ap (λ w. w.0) (from_made Place.transfer_stack vs s s' e)
      ∙ ap (λ o. forwards ∷ (ways_of o).0) at;
  transfer_sends = λ vs s s' k wrapper at e.
      ap (λ w. w.1) (from_made Place.transfer vs s s' e) ∙ ap (λ o. transfers ∷ (ways_of o).1) at;
  limit_sends = λ vs s s' k wrapper at e.
      ap (λ w. w.1) (from_made Place.rate_limit vs s s' e) ∙ ap (λ o. limits ∷ (ways_of o).1) at;
  fee_sends = λ vs s s' k wrapper at e.
      ap (λ w. w.1) (from_made Place.ibc_fee vs s s' e) ∙ ap (λ o. fees ∷ (ways_of o).1) at;
  channel_sends = λ k. refl;
}

new_chain_app-handles_example :
    (stack : Ways) × (keeper : Ways) × (find Place.transfer_stack (returned.0).built.places
      ≡ some stack)
    × (find Place.transfer (returned.0).built.places ≡ some keeper)
    × (stack.0 ≡ forwards ∷ fees ∷ limits ∷ transfers ∷ [])
    × (stack.0 ≡ forwards ∷ reverse (keeper.1))
unfolding layers
new_chain_app-handles_example =
    new_chain_app-handles host layers true empty returned.0 refl returned.1

make_encoding_config-IsCoherent_example :
    (config : EncodingConfig Ways) × (p' : Process Ways (List Effect) ℕ) × (make_encoding_config
        host empty
      ≡ (ok config, p'))
    × IsCoherent sdk Place.textual_tx_config config
make_encoding_config-IsCoherent_example = make_encoding_config-IsCoherent host works empty refl refl
