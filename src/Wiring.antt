-- ===== src/Wiring.antt =====
-- `NewChainApp` of app/app.go: the calls that make the application, in the order of the source, and
-- what becomes of them.
pub mod Places
pub mod Stores
pub mod Calls
pub mod Program
pub mod Ready
pub mod Extends
pub mod Wired
pub mod Orders
pub mod Seals
pub mod Returns
pub mod Construct
pub mod ChainCalls
pub mod Reached
pub mod ChainApp
pub mod ChainLawful
pub mod Steps
pub mod ChainReturns
pub mod Owners
pub mod Order
pub mod Packets
pub mod Encoding
