-- ===== src/Testnet.antt =====
-- cmd/vectord/testnet.go: the commands that lay out the files of a test network and that start one in
-- process.
pub mod Address
pub mod AddressLaws
pub mod Config
pub mod Init
pub mod Ports
pub mod Flags
pub mod Genesis
pub mod Run
pub mod Start
pub mod InitLaws
pub mod GenesisLaws
pub mod CollectLaws
pub mod RunLaws
