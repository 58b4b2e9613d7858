-- ===== src/Wiring/Program/Terms.antt =====
-- Expressions that the calls of `NewChainApp` repeat.
use vector_chain.Wiring.Places.{app_codec}
use vector_chain.Wiring.Places as Places
use vector_chain.Wiring.Calls.{Argument, place, part, outside, channel_keeper, port_keeper}

abbrev pub codec : Argument
codec = place app_codec

abbrev pub base : Argument
base = place Places.base_app

abbrev pub account_keeper : Argument
account_keeper = place Places.account

abbrev pub bank_keeper : Argument
bank_keeper = place Places.bank

abbrev pub staking_keeper : Argument
staking_keeper = place Places.staking

-- The address of the governance module, which may change the parameters.
abbrev pub authority : Argument
authority = outside "authtypes.NewModuleAddress(govtypes.ModuleName).String()"

abbrev pub fee_collector : Argument
fee_collector = outside "authtypes.FeeCollectorName"

abbrev pub ibc_channel_keeper : Argument
ibc_channel_keeper = part Places.ibc channel_keeper

abbrev pub ibc_port_keeper : Argument
ibc_port_keeper = part Places.ibc port_keeper

abbrev pub account_prefix : Argument
account_prefix = outside "sdk.GetConfig().GetBech32AccountAddrPrefix()"
