-- ===== src/App/Modules.antt =====
-- The modules that `NewChainApp` of app/app.go puts into the module manager, and the orders that it
-- sets for them.
use vector_chain.Prelude.{ℕ, ◌==◌, Bool, List, [], ◌∷◌}

pub data Module : Type 0 where
  genutil auth vesting bank feegrant gov mint slashing distribution staking upgrade evidence :
      Module
  params authz group nft consensus circuit capability wasm ibc transfer ibc_fee interchain_accounts
        ibc_tm crisis token_factory packet_forward rate_limit :
      Module

-- A module's number.
abbrev pub number : Module → ℕ
number genutil = 0
number auth = 1
number vesting = 2
number bank = 3
number feegrant = 4
number gov = 5
number mint = 6
number slashing = 7
number distribution = 8
number staking = 9
number upgrade = 10
number evidence = 11
number params = 12
number authz = 13
number group = 14
number nft = 15
number consensus = 16
number circuit = 17
number capability = 18
number wasm = 19
number ibc = 20
number transfer = 21
number ibc_fee = 22
number interchain_accounts = 23
number ibc_tm = 24
number crisis = 25
number token_factory = 26
number packet_forward = 27
number rate_limit = 28

abbrev pub same_module : Module → Module → Bool
same_module m n = number m == number n

-- `module.NewManager`
unfoldable pub module_manager : List Module
module_manager =
    genutil ∷ auth ∷ vesting ∷ bank ∷ feegrant ∷ gov ∷ mint ∷ slashing ∷ distribution ∷ staking
    ∷ upgrade ∷ evidence ∷ params ∷ authz ∷ group ∷ nft ∷ consensus ∷ circuit ∷ capability ∷ wasm
    ∷ ibc ∷ transfer ∷ ibc_fee ∷ interchain_accounts ∷ ibc_tm ∷ crisis ∷ token_factory
    ∷ packet_forward ∷ rate_limit ∷ []

-- `SetOrderPreBlockers`
unfoldable pub pre_blockers : List Module
pre_blockers = upgrade ∷ []

-- `SetOrderBeginBlockers`
unfoldable pub begin_blockers : List Module
begin_blockers =
    mint ∷ distribution ∷ slashing ∷ evidence ∷ staking ∷ genutil ∷ authz ∷ capability ∷ transfer
    ∷ ibc ∷ interchain_accounts ∷ ibc_fee ∷ wasm ∷ token_factory ∷ packet_forward ∷ rate_limit ∷ []

-- `SetOrderEndBlockers`
unfoldable pub end_blockers : List Module
end_blockers =
    crisis ∷ gov ∷ staking ∷ genutil ∷ feegrant ∷ group ∷ capability ∷ transfer ∷ ibc
    ∷ interchain_accounts ∷ ibc_fee ∷ wasm ∷ token_factory ∷ packet_forward ∷ rate_limit ∷ []

-- The order in which the genesis of the modules is read, and is exported.
unfoldable pub genesis_module_order : List Module
genesis_module_order =
    capability ∷ auth ∷ bank ∷ distribution ∷ staking ∷ slashing ∷ gov ∷ mint ∷ crisis ∷ genutil
    ∷ evidence ∷ authz ∷ feegrant ∷ nft ∷ group ∷ params ∷ upgrade ∷ vesting ∷ consensus ∷ circuit
    ∷ transfer ∷ ibc ∷ interchain_accounts ∷ ibc_fee ∷ wasm ∷ token_factory ∷ packet_forward
    ∷ rate_limit ∷ []
