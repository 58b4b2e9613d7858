-- ===== src/Wiring/Program/Stacks.antt =====
-- The IBC stacks of `NewChainApp` and their routes.
use vector_chain.Prelude.{List, [], ◌∷◌}
use vector_chain.Wiring.Places.{Place}
use vector_chain.Wiring.Calls.{place, outside, nil_literal, Call, assign, perform, Effect}
use vector_chain.Wiring.Program.Terms.{ibc_channel_keeper}

-- A middleware is given the module beneath it.
unfoldable pub transfer_stack_calls : List Call
transfer_stack_calls =
    assign Place.transfer_module (place Place.transfer ∷ []) ""
    ∷ assign Place.limited_transfer (place Place.rate_limit ∷ place Place.transfer_module ∷ []) ""
    ∷ assign Place.fee_transfer (place Place.limited_transfer ∷ place Place.ibc_fee ∷ []) ""
    ∷ assign Place.transfer_stack
        (place Place.fee_transfer
          ∷ place Place.packet_forward
          ∷ outside "0"
          ∷ outside "packetforwardkeeper.DefaultForwardTransferPacketTimeoutTimestamp"
          ∷ outside "packetforwardkeeper.DefaultRefundTransferPacketTimeoutTimestamp"
          ∷ [])
        ""
    ∷ []

-- The controller of interchain accounts has no module beneath it: `noAuthzModule` is an interface that is
-- never set.
unfoldable pub other_stack_calls : List Call
other_stack_calls =
    assign Place.ica_controller_module
      (nil_literal "noAuthzModule" ∷ place Place.ica_controller ∷ []) ""
    ∷ assign Place.ica_controller_stack
        (place Place.ica_controller_module ∷ place Place.ibc_fee ∷ []) ""
    ∷ assign Place.ica_host_module (place Place.ica_host ∷ []) ""
    ∷ assign Place.ica_host_stack (place Place.ica_host_module ∷ place Place.ibc_fee ∷ []) ""
    ∷ assign Place.wasm_module (place Place.wasm ∷ ibc_channel_keeper ∷ place Place.ibc_fee ∷ []) ""
    ∷ assign Place.wasm_stack (place Place.wasm_module ∷ place Place.ibc_fee ∷ []) ""
    ∷ []

-- The routes of the four ports; the router is set and sealed.
unfoldable pub route_calls : List Call
route_calls =
    assign Place.ibc_router [] ""
    ∷ perform Effect.add_transfer_route (place Place.ibc_router ∷ place Place.transfer_stack ∷ [])
        ""
    ∷ perform Effect.add_wasm_route (place Place.ibc_router ∷ place Place.wasm_stack ∷ []) ""
    ∷ perform Effect.add_ica_controller_route
        (place Place.ibc_router ∷ place Place.ica_controller_stack ∷ []) ""
    ∷ perform Effect.add_ica_host_route (place Place.ibc_router ∷ place Place.ica_host_stack ∷ [])
        ""
    ∷ perform Effect.set_router (place Place.ibc ∷ place Place.ibc_router ∷ []) ""
    ∷ []
