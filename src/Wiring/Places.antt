-- ===== src/Wiring/Places.antt =====
-- What `NewChainApp` of app/app.go assigns: its local variables and the fields of `ChainApp`.
use vector_chain.Prelude.{ℕ, ◌+◌, ◌==◌, Bool}
use vector_chain.App.Modules.{Module, number}

-- The variables and the fields that `NewChainApp` assigns, and a field of `ChainApp` that it declares
-- only, `ScopedIBCFeeKeeper`. Where the source assigns a variable again, each assignment has a place of
-- its own: the configuration of transactions, the stacks of the IBC modules, and the governance keeper
-- before and after its hooks.
pub data Place : Type 0 where
  interface_registry app_codec legacy_amino tx_config base_app kv_keys transient_keys memory_keys
        params consensus_params capability scoped_ibc scoped_ica_host scoped_ica_controller
        scoped_transfer scoped_wasm account bank textual_tx_config staking mint distribution
        slashing crisis feegrant circuit authz group_config group upgrade ibc gov_router gov_config
        gov_keeper gov nft evidence token_factory ibc_fee rate_limit transfer packet_forward
        ica_host ica_controller wasm_config wasm transfer_module limited_transfer fee_transfer
        transfer_stack ica_controller_module ica_controller_stack ica_host_module ica_host_stack
        wasm_module wasm_stack ibc_router genutil_basic manager basic_manager configurator
        auto_cli_service reflection_service auth_override simulation_manager snapshotter
        post_handler proto_files context scoped_ibc_fee :
      Place
  -- what `NewAppModule` of a module's package makes
  app_module : Module → Place

-- A place's number.
abbrev pub place_number : Place → ℕ
place_number interface_registry = 0
place_number app_codec = 1
place_number legacy_amino = 2
place_number tx_config = 3
place_number base_app = 4
place_number kv_keys = 5
place_number transient_keys = 6
place_number memory_keys = 7
place_number params = 8
place_number consensus_params = 9
place_number capability = 10
place_number scoped_ibc = 11
place_number scoped_ica_host = 12
place_number scoped_ica_controller = 13
place_number scoped_transfer = 14
place_number scoped_wasm = 15
place_number account = 16
place_number bank = 17
place_number textual_tx_config = 18
place_number staking = 19
place_number mint = 20
place_number distribution = 21
place_number slashing = 22
place_number crisis = 23
place_number feegrant = 24
place_number circuit = 25
place_number authz = 26
place_number group_config = 27
place_number group = 28
place_number upgrade = 29
place_number ibc = 30
place_number gov_router = 31
place_number gov_config = 32
place_number gov_keeper = 33
place_number gov = 34
place_number nft = 35
place_number evidence = 36
place_number token_factory = 37
place_number ibc_fee = 38
place_number rate_limit = 39
place_number transfer = 40
place_number packet_forward = 41
place_number ica_host = 42
place_number ica_controller = 43
place_number wasm_config = 44
place_number wasm = 45
place_number transfer_module = 46
place_number limited_transfer = 47
place_number fee_transfer = 48
place_number transfer_stack = 49
place_number ica_controller_module = 50
place_number ica_controller_stack = 51
place_number ica_host_module = 52
place_number ica_host_stack = 53
place_number wasm_module = 54
place_number wasm_stack = 55
place_number ibc_router = 56
place_number genutil_basic = 57
place_number manager = 58
place_number basic_manager = 59
place_number configurator = 60
place_number auto_cli_service = 61
place_number reflection_service = 62
place_number auth_override = 63
place_number simulation_manager = 64
place_number snapshotter = 65
place_number post_handler = 66
place_number proto_files = 67
place_number context = 68
place_number scoped_ibc_fee = 69
place_number (app_module m) = 70 + number m

abbrev pub same_place : Place → Place → Bool
same_place p q = place_number p == place_number q
