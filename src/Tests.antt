-- ===== src/Tests.antt =====
-- Concrete runs of the code, and the theorems applied to them.
pub mod Decorators
pub mod Ante
pub mod Upgrades
pub mod Store
pub mod Export
pub mod Address
pub mod Disk
pub mod Testnet
pub mod App
pub mod Commands
pub mod Fixtures
pub mod Flags
pub mod Root
pub mod Setup
pub mod Network
pub mod Interchain
pub mod Wiring
pub mod Options
