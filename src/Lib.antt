-- ===== src/Lib.antt =====
-- A verification library of the vector chain: the application of app/ and the command line of
-- cmd/vectord/, with the helpers of interchaintest/.
--
-- The program builds a Cosmos SDK application: app/app.go wires the keepers and the modules,
-- app/ante.go chains the decorators that a transaction passes, app/decorators refuses transactions
-- with blocked messages, app/upgrades.go registers the upgrade handlers and the store loader,
-- app/export.go exports the state, and cmd/vectord runs it all and lays out test networks. The
-- keepers, the module manager, the operating system and the network are not the repository's: they
-- are records of functions that the definitions take as parameters, and what a theorem relies on of
-- them stands among its hypotheses or in a record of laws (Export/Laws, Export/Pool, Fixtures/Supply, Fixtures/SetupLaws, Testnet/Flags/Table, Commands/RootLaws,
-- Commands/RootContext, Interchain/Exec, Wiring/Returns, Wiring/Steps, Wiring/Packets).
--
-- The modules:
--   Prelude      shared names; Results has `Outcome`, how a Go call ends (value, error, panic, end
--                of the process), Actions the same over a state that is passed along, Order the order
--                of members in a list, Decimal the printing of numbers
--   Decorators   app/decorators: FilterDecorator, AnteHandle, HasDisallowedMessage, the mock
--                transaction; a message is its name or an authorization with nested messages
--   Ante         app/ante.go: HandlerOptions and NewAnteHandler; a keeper is a reference that may be
--                nil, a decorator is a constructor with the arguments that it is given
--   Upgrades     app/upgrades.go and app/upgrades: the declared upgrades, NewUpgrade,
--                CreateUpgradeHandler and RegisterUpgradeHandlers
--   Export       app/export.go: ExportAppStateAndValidators and prepForZeroHeightGenesis, one
--                definition for each part of its body; the store is a type `S`, and an iteration is
--                given its callback
--   App          app/app.go: maccPerms and BlockedAddresses (Accounts), the orders of the modules
--                (Modules), FinalizeBlock with its sync.Once, InitChainer and the blockers (Lifecycle),
--                GetStoreKeys (StoreKeys), AutoCliOpts (AutoCli), the heights to skip (SkipHeights)
--   Wiring       NewChainApp of app/app.go. Places are the variables and fields that it assigns,
--                Stores the store keys and initParamsKeeper, Calls what a call is and does, Program
--                the calls of the source in their order, each with its arguments, Construct the whole
--                function with the upgrades, the ante handler and the snapshots between the calls.
--                Ready checks the arguments of the calls before they run, Seals and Orders
--                that none comes after what bars it or forgets a module; Extends, Wired,
--                Returns, Reached, Steps and ChainCalls carry that through a run, ChainApp
--                and ChainReturns say how it ends; Owners, Order and Packets are about the
--                stores, the order of the calls and the IBC stacks; Encoding is
--                app/encoding.go and app/params
--   Commands     cmd/vectord/commands.go and root.go: newApp, appExport, the default configurations
--                (Context), PersistentPreRunE (PreRun), the commands under the root (Tree), and
--                NewRootCmd with tempDir (Root), over NewChainApp as Wiring has it
--   Testnet      cmd/vectord/testnet.go: calculateIP and getIP (Address), initTestnetFiles (Config,
--                Init, Run), initGenFiles and collectGenFiles (Genesis), startTestnet (Start), the
--                flags of both commands with what is read of them (Flags); the disk is a type `D`
--   Fixtures     app/test_helpers.go: GenesisStateWithValSet and the funding of test accounts, and the
--                set-up of applications (Setup, Single) and of a test network (Network)
--   Interchain   interchaintest/setup.go: TxCommandBuilderNode and getTransferChannel, and the runs
--                of commands and transactions (Exec)
--   Tests        concrete runs and, for each theorem with hypotheses, one application of it
--
-- Numbers are natural numbers. A byte of an address is kept below 256 by the remainder that the code
-- has by its type. Heights and counts that the code holds in signed integers are taken as not
-- negative, other than the height of an export, where -1 stands for the latest version. Texts are
-- ASCII where they are parsed. The loops are recursions on the lists or counts that they go over; only
-- the printing of decimals runs on fuel, of one more than the number, which is enough since each step
-- divides it by ten.
--
-- Not modelled: the constructors that NewChainApp calls, which are the SDK's, ibc-go's, wasmd's
-- and those of the other modules; cobra and pflag, and the commands that other packages make; the
-- registrations of API routes and of the services of the server; getters; logging and terminal
-- output; test code, other than the helpers named above.
pub mod Prelude
pub mod Decorators
pub mod Ante
pub mod Upgrades
pub mod Export
pub mod App
pub mod Wiring
pub mod Commands
pub mod Fixtures
pub mod Interchain
pub mod Testnet
pub mod Tests
