-- ===== src/Wiring/Program.antt =====
-- The calls of `NewChainApp` of app/app.go in the order of the source: the codecs and the base
-- application, the keepers of the SDK, those of IBC and of contracts, the IBC stacks, the modules and
-- what is registered at the end.
pub mod Terms
pub mod Base
pub mod Keepers
pub mod Governed
pub mod Ibc
pub mod Stacks
pub mod Managed
pub mod Closing
