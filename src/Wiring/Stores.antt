-- ===== src/Wiring/Stores.antt =====
-- The stores that `NewChainApp` of app/app.go mounts, and the parameter subspaces that
-- `initParamsKeeper` registers. A store or a subspace is named by a constant of its own package.
use vector_chain.Prelude.{ℕ, ◌==◌, Bool, false, ◌||◌, List, [], ◌∷◌, Option, none, some}

-- The packages whose `StoreKey` the source names.
pub data Store : Type 0 where
  auth bank staking crisis mint distribution slashing gov params consensus upgrade feegrant evidence
        circuit authz nft group capability ibc transfer ibc_fee wasm ica_host ica_controller
        token_factory packet_forward rate_limit :
      Store

abbrev store_number : Store → ℕ
store_number auth = 0
store_number bank = 1
store_number staking = 2
store_number crisis = 3
store_number mint = 4
store_number distribution = 5
store_number slashing = 6
store_number gov = 7
store_number params = 8
store_number consensus = 9
store_number upgrade = 10
store_number feegrant = 11
store_number evidence = 12
store_number circuit = 13
store_number authz = 14
store_number nft = 15
store_number group = 16
store_number capability = 17
store_number ibc = 18
store_number transfer = 19
store_number ibc_fee = 20
store_number wasm = 21
store_number ica_host = 22
store_number ica_controller = 23
store_number token_factory = 24
store_number packet_forward = 25
store_number rate_limit = 26

abbrev pub same_store : Store → Store → Bool
same_store s t = store_number s == store_number t

-- `keys`: the arguments of `NewKVStoreKeys`.
unfoldable pub kv_store_keys : List Store
kv_store_keys =
    auth ∷ bank ∷ staking ∷ crisis ∷ mint ∷ distribution ∷ slashing ∷ gov ∷ params ∷ consensus
    ∷ upgrade ∷ feegrant ∷ evidence ∷ circuit ∷ authz ∷ nft ∷ group ∷ capability ∷ ibc ∷ transfer
    ∷ ibc_fee ∷ wasm ∷ ica_host ∷ ica_controller ∷ token_factory ∷ packet_forward ∷ rate_limit ∷ []

-- Whether the map `keys` has an entry under the name.
unfoldable pub has_key : Store → List Store → Bool
has_key s [] = false
has_key s (t ∷ ts) = same_store s t || has_key s ts

-- The packages whose name the source gives to a subspace.
pub data Subspace : Type 0 where
  baseapp auth bank staking mint distribution slashing gov crisis ibc transfer ica_controller
        ica_host wasm token_factory packet_forward rate_limit :
      Subspace

abbrev space_number : Subspace → ℕ
space_number baseapp = 0
space_number auth = 1
space_number bank = 2
space_number staking = 3
space_number mint = 4
space_number distribution = 5
space_number slashing = 6
space_number gov = 7
space_number crisis = 8
space_number ibc = 9
space_number transfer = 10
space_number ica_controller = 11
space_number ica_host = 12
space_number wasm = 13
space_number token_factory = 14
space_number packet_forward = 15
space_number rate_limit = 16

abbrev pub same_space : Subspace → Subspace → Bool
same_space s t = space_number s == space_number t

-- The key tables that `initParamsKeeper` gives to the legacy subspaces.
pub data KeyTable : Type 0 where
  client_and_connection transfer_table ica_controller_table ica_host_table packet_forward_table :
      KeyTable

-- `initParamsKeeper`: the subspaces of the parameters' keeper, in the order of their registration,
-- each with its key table.
unfoldable pub init_params_keeper : List (Subspace × Option KeyTable)
init_params_keeper =
    (baseapp, none)
    ∷ (auth, none)
    ∷ (bank, none)
    ∷ (staking, none)
    ∷ (mint, none)
    ∷ (distribution, none)
    ∷ (slashing, none)
    ∷ (gov, none)
    ∷ (crisis, none)
    ∷ (ibc, some client_and_connection)
    ∷ (transfer, some transfer_table)
    ∷ (ica_controller, some ica_controller_table)
    ∷ (ica_host, some ica_host_table)
    ∷ (wasm, none)
    ∷ (token_factory, none)
    ∷ (packet_forward, some packet_forward_table)
    ∷ (rate_limit, none)
    ∷ []

-- Whether `ParamsKeeper.GetSubspace` finds the name.
unfoldable pub has_subspace : Subspace → List (Subspace × Option KeyTable) → Bool
has_subspace s [] = false
has_subspace s ((t, _) ∷ ts) = same_space s t || has_subspace s ts
