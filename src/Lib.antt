-- ===== src/Lib.antt =====
-- qday-pool: a PPLNS mining pool. Miners connect to the stratum server (internal/stratum), which
-- checks their shares and records them in the store (internal/store), a SQLite database. A share
-- that solves a block makes the store freeze a window of the newest work and divide the block's
-- reward over it. The controller (internal/pool) asks the node (internal/nodeapi) what became of
-- the blocks, and has the store prepare payouts of mature credit, which the node's wallet sends.
--
-- What is modelled:
--   Prelude: lists, texts (byte strings) and integers over the native numbers; Prelude/Sort is
--     Go's sort.Slice, Prelude/Hex its hex encoding.
--   Decimal: what the code uses of Go's big.Int, SetString in base ten and String.
--   Store/Tables, Store/Sql (internal/store/store.go, schema and Store): the tables as lists of
--     rows, newest first, and database calls as functions from tables to a result and tables.
--     Which statements fail is a stream of Booleans, the argument `fails` of a database; a
--     transaction that fails leaves the tables as they were. A query that starts reads all of its
--     rows.
--   Store/Totals: parseBig and addAmount; a Go map of amounts is an association list.
--   Store/Shares: RecordShare, DeleteShare, PruneShares.
--   Store/Window, Store/Split, Store/Allocate: AllocateBlock: the window's loop, the division by
--     largest remainders, the transaction.
--   Store/Blocks: SetBlockState, SetBlockError, PendingBlocks, Blocks, BlockCount.
--   Store/Balances, Store/Payouts, Store/PayoutStates: balances, PreparePayouts, ActivePayouts,
--     payoutItems, SetPayoutState, PayoutError, Payouts, PayoutCount, Account.
--   Store/Ledger: the invariant of the whole database, and the runs of the store.
--   Store/Statistics: TopMiners, ShareSummary, RoundWork.
--   Store/Examples: a run on concrete tables.
--   Amount (internal/amount/amount.go): Parse; Amount/Spaces is Go's strings.TrimSpace.
--   Controller (internal/pool/controller.go): syncBlocks and processPayouts. The node's answers in
--     one round (internal/nodeapi/client.go) are the record Node.
--   Float: float64, the numbers that the code computes with: a sign and a multiple of 2 ^ -1074, an
--     infinity, or no number. An operation is exact and then rounded to 53 bits, half to even
--     (Float/Rounding); Float/Laws and Float/Results are what results may be.
--   Stratum/Bytes: hexadecimal, little-endian and big-endian bytes and their comparison.
--   Stratum/Work (internal/stratum/work.go): solve, notifyParams, TargetWork, transactionLeaf,
--     merklePair, decode32, mempoolTransactionCount; Stratum/Work/Templates: newWorkTemplate, of
--     which any error is `none`. BLAKE2b is a function on byte lists and the
--     block codec of go.sia.tech/core a record of functions, both arguments.
--     Stratum/Work/Difficulty: targetDifficulty and targetForDifficulty, whose quotients of 256 bits
--     are rounded as big.Float does.
--   Stratum/Config (internal/stratum/server.go): what NewServer fills in and refuses.
--   Stratum/Clients: a client and newJob: jobTimestamp, extraNonceBytes, acceptedAt,
--     lowerIdleDifficulty.
--   Stratum/Login: parseWorkerLogin, passwordDifficulty.
--   Stratum/Server: connections, jobs and messages: the loop of Serve, remove, send, respond,
--     publishClient, sendJob; Stratum/Server/Submit: submit; Stratum/Server/Handlers: a line that a
--     client sends, run and handle, and assignTemplate; Stratum/Server/Rounds: a round of
--     templateLoop and of refreshLoop, setTemplateError; Stratum/Server/Snapshots: Snapshot. The other modules beside them carry an
--     invariant over these operations, and Stratum/Server/Reach over all sequences of them.
--   Web/Amounts (internal/web/server.go): formatAmount.
--
-- How the model stands to the code:
--   Amounts and work are natural numbers where parseBig or a guard makes them so; a `*big.Int`
--   argument, which may be nil or negative, is an optional integer. A block's heights are uint64
--   and their sums are taken modulo 2 ^ 64. Row ids are natural numbers: SQLite's AUTOINCREMENT
--   ids start at 1. Times are milliseconds in the store and nanoseconds in the server;
--   the clock and the entropy of a request id are arguments.
--   `for address, work := range grouped` runs in an unspecified order; the model's is the order
--   in which the keys came in. sort.Slice is an insertion sort: where two items are equal under
--   the code's order they may come out in another order than Go's, which on distinct addresses
--   they are not. (TopMiners orders by work and worker alone, so rows of two addresses may tie.)
--   The store has one connection and takes its mutex around the operations of more than one
--   statement, SetBlockState excepted, which reads a block's status and heights and then writes
--   them; nothing else writes these, so it is taken as one step. Loops are recursion on the rows.
--   The stratum server is a state that each handler, tick, round or connection takes to the next: a
--   handler runs as one step, though the code lets those of several clients interleave between
--   their locks, and PruneShares follows the assignments of its round. A client is a number that
--   stands for its pointer; `once` is whether it is open. A closed client's handler may still run.
--   Whether a write to its connection succeeds is a part of the client, which changes between steps.
--   `sent` is all messages, newest first, and `submitted` the blocks given to the node. What is
--   outside is an argument of a step: the clock, entropy, the node's answers, the decoding of a JSON
--   line into its method and the items of its parameters, strconv.ParseFloat, and go.sia.tech/core's
--   parsing of an address. The subscription id in an answer, which is the time, is left out.
--   Rounding takes at most 4,200 rounds, each of which halves: a float64 is less than 2 ^ 2098
--   multiples of 2 ^ -1074, so a product or a quotient of two needs fewer.
--   The loop that hands out atoms has the number of atoms left as its fuel; `digits` has n + 1
--   rounds for the digits of n, and one round divides n by ten.
--
-- What is not modelled: Open and Close of the store; the controller's defaults, tickers and
-- logging; Run, the listener, read deadlines and the time of an update in internal/stratum/server.go,
-- and that an error of its templateLoop has a text; that templateLoop passes the long-poll ID to the
-- node; the rest of internal/web, the HTTP client of internal/nodeapi and
-- cmd/qday-pool.
pub mod Prelude
pub mod Decimal
pub mod Amount
pub mod Float
pub mod Store
pub mod Controller
pub mod Stratum
pub mod Web
