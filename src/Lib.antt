-- ===== src/Lib.antt =====
-- bancod: a bot that fulfills swap offers on Ark. A maker publishes an offer in the extension of
-- the transaction that funds it; the bot watches the stream of transactions, checks each offer
-- against its configured pairs and a price feed, and builds the transaction that fulfills it.
--
-- The parts, and the files that model them:
--   * pkg/contract/offer.go, an offer and its TLV form: Contract/Offer (Offer, DeserializeOffer as
--     deserialize_offer, Serialize as serialize); its scripts and its packet: Contract/Script
--     (FulfillScript, VtxoScript, ToPacket, FindBancoOffer).
--   * pkg/contract/taker.go, the fulfillment: Contract/Taker (FulfillOffer as fulfill_offer, in
--     Inputs and Fulfill) and Contract/Assets (buildFulfillAssetPacket).
--   * pkg/contract/maker.go, CreateOffer and GetOffers: Contract/Maker.
--   * pkg/banco, the plugin for offers: Banco/Pair, Banco/Offer (the funded offer), Banco/Price (the
--     price cache) and Banco/Plugin (NewPlugin with its decoder, validators and action; Created joins
--     it with the maker, from CreateOffer to Match).
--   * pkg/solver, what runs plugins: Solver/Txmatch (predicates on transactions), Solver/Builder
--     (plugins from stages), Solver/Run (the runtime) and Solver/Source (arkdsource.Subscribe, the
--     transactions that it runs on).
--   * internal/core/application, the service: Application/Pairs (AddPair, UpdatePair, RemovePair)
--     with the map that they are to keep in Application/Pairs/Spec; Application/Service (the wallet
--     and the trades); Application/Recorded (from a fulfillment to the list of trades); and
--     Application/Loop (Start, Stop and Status), which joins Solver/Run and Solver/Source.
--   * internal/infrastructure/db/sqlite, the tables: Database/Pairs and Database/Trades, with the
--     trade listener.
--   * internal/interface/grpc: Interface/Handler (requests and status codes), Interface/Gateway
--     (server.go, the HTTP routes), with Interface/Json and Interface/Url for what they use of
--     encoding/json and net/url.
--   * cmd/banco, the command line: Cli. internal/config: Config. internal/infrastructure/pricefeed:
--     PriceFeed.
--   * cmd/bancod, the daemon: Daemon, with OpenDB of internal/infrastructure/db/sqlite and the start
--     and stop of the servers, as the calls that each makes and what they leave open.
--
-- State. A handler that changes state takes it and returns it: the plugin's World, the price cache,
-- the tables. The runtime is a step relation, Solver/Run.Step, in which a goroutine can end between
-- any two steps of the loop; its state keeps the history of calls, dispatches and ends. Errors are
-- values of a type of each component, and a nil dereference or a slice out of range is one of them
-- where the code can meet it.
--
-- Foreign code. Ark, bitcoin and wallet libraries are arguments: ArkLib, ScriptLib, AssetLib,
-- TakerEnv, MakerEnv, PluginEnv. What their documentation says is in ArkLaws, AssetLaws and
-- MakerLaws, which Examples fills with concrete functions. float64 is the argument Float64, of
-- which nothing is assumed.
--
-- Numbers are natural numbers, with the wrap-around of uint64 and uint16 written out and int64 as
-- an integer with the conversions to_i64 and to_u64 (Prelude/Ints). The parser of an offer is the
-- one loop on fuel: it gets as many turns as the input has bytes, and each turn reads three or more.
--
-- Not modelled: logging; the syntax of JSON, which is an argument; the generated code and the web
-- page; the locks of the price cache and of the service, since each operation is taken alone;
-- failures of the database itself; a second Start of the service, which the daemon's main does not
-- make.
pub mod Prelude
pub mod Contract
pub mod Banco
pub mod Solver
pub mod Database
pub mod Application
pub mod Config
pub mod PriceFeed
pub mod Interface
pub mod Cli
pub mod Examples
pub mod Daemon
