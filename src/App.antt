-- ===== src/App.antt =====
-- app/app.go: the module accounts, the orders of the modules, and the methods of `ChainApp` that the
-- consensus engine calls. A module or an account is named by a constant of its own package.
pub mod Accounts
pub mod StoreKeys
pub mod StoreKeysLaws
pub mod Blocked
pub mod SkipHeights
pub mod AutoCli
pub mod Modules
pub mod ModuleOrder
pub mod Lifecycle
pub mod Blocks
