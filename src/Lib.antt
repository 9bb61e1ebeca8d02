-- ===== src/Lib.antt =====
-- Verification of the mwixnet server, a CoinSwap mixer for Grin.
--
-- A user sends an onion for an unspent output with a signature of its commitment (`swap` in
-- src/server.rs). The server checks it, peels the one layer of the onion with its key
-- (src/onion.rs) and saves the swap (src/store.rs). Every interval (src/rpc.rs) a round selects
-- the saved swaps that can be mixed, assembles one transaction of them (src/wallet.rs), posts it
-- to the node (src/node.rs), and marks them as in process.
--
-- The files, by the part of the program (paths are from the repository's root):
--   Types            src/types.rs: the payload of a layer and its serialization
--   Secp             src/secp.rs: commitment signatures, commitments (Secp/Sign, Secp/Verify,
--                    Secp/Commit), and the hex text of a signature (Secp/Json)
--   Onion            src/onion.rs: the packet and its serialization; Onion/Peel: peeling a layer;
--                    Onion/Json: the JSON object of a request; Onion/Create: wrapping, as the test
--                    utilities of that file do it; Onion/Route: an onion for several servers
--   Store            src/store.rs: Store/Data the swaps, Store/Ops the operations; Store/Save,
--                    Store/View and Store/Refinement show that they are a map of held swaps
--   Node             src/node.rs: the trait as a record of functions, and what is asked of it;
--                    Node/Http: `HttpGrinNode` as a value of the trait; Node/Mock: the node of
--                    the tests
--   Wallet           src/wallet.rs: the trait as a record, and `assemble_tx`; Wallet/Http:
--                    `HttpWallet` as a value of the trait; Wallet/Mock: the wallet of the tests
--   Server           src/server.rs: Server/Swap is `swap`, Server/Round is `execute_round`,
--                    Server/Reach is the state machine of both. The others prove what they do:
--                    Server/Client for an honest client's request; Server/Refuse, Server/Refused
--                    and Server/Attempt for the requests that are refused; Server/Asked and
--                    Server/Complete for what a round asks the node and which swaps it takes;
--                    Server/Fees and Server/Live for the fees and the success of a round;
--                    Server/Lifecycle and Server/Mixing for a swap from its request to its round
--                    and behind it; Server/Once for the rounds after its round; Server/Mocked is
--                    a test of that file for all values
--   Rpc              src/rpc.rs: the API call, the mutex, and the loop of the rounds;
--                    Rpc/Request: the JSON parameters; Rpc/Served: an honest request on its whole
--                    way; Rpc/Poison: what a panic of a round leaves; Rpc/Listen: `listen`, with
--                    the HTTP server, the thread of the rounds and the stop state as one state
--                    that events change in any order; Rpc/Stopping, Rpc/Closing, Rpc/Stops and
--                    Rpc/Hangs: how it ends; Rpc/Ordered and Rpc/Between: what the orders of
--                    events do to the server; Rpc/Schedule: when rounds are due; Rpc/Promised and
--                    Rpc/Refused: a client's request among the other events; Rpc/Restart:
--                    starting again
--   Config           src/config.rs: the encrypted key, writing and loading the configuration, and
--                    the default paths and addresses (Config/Paths)
--   Main             src/main.rs: the arguments and the configurations made of them (Main/Args),
--                    the prompts (Main/Prompt), `real_main` up to `listen` (Main/Start), and the
--                    rest of it with `main` (Main/Launch)
--   Base             tests, lists, outcomes, readers and writers, code that changes a state
--   Ext              the crates that the program calls, as parameters, with the laws assumed
--   Examples         crates over plain numbers that meet all the laws, and runs at concrete values
--
-- How the code is read. A function that returns `Result` returns `Result E A`, with panics as a
-- third outcome. Code that changes the database, the posted transactions or the file system is a
-- function from the state to an outcome and the new state, which is kept after an error as well.
-- The state of the server is the database with the posted transactions, the last one first. Every
-- function of another crate is a field of the records of Ext; what the proofs rely on is stated in
-- Ext/Laws, Ext/DbLaws, Ext/Net, Ext/System and Config/RoundTrip, and Examples/ToyLaws,
-- Examples/ToyUp, Examples/ToyNet and Examples/ToyFiles give an instance of each. Machine integers
-- of 64 and 32 bits wrap, as in a release build. Random values (the offset, the salt, the nonces)
-- are arguments. A node and a wallet answer the same during one call of the server, and may change
-- between calls. Loops are by recursion on the list that they walk, on the number of turns, or on
-- the list of the events, so no fuel is needed. In Rpc/Listen a call of the API and a round are one
-- event each, since the mutex is held as long as they last; the test of the stop state, the sleep
-- and the turn behind it are events of their own, between which any others may stand. The HTTP
-- server handles requests until it is closed, and `wait` returns then.
--
-- Simplifications: the contexts of libsecp256k1 are left out; the error `UnknownError` keeps the
-- error whose text it shows; a batch of the database that is not committed changes nothing; a
-- JSON object is the list of its entries, whose values are texts, arrays of texts or others; the
-- JSON-RPC identifier and version of a request belong to the parameter that sends it; the lines that
-- a user enters are a list, and a prompt after the last one fails.
--
-- Not modelled: what the HTTP server does with a connection, the parsing of JSON text and of the
-- command line into the values above, the random generators, the inside of opening the database
-- (which changes the file system), the waiting for a signal (its arrival is an event), logging,
-- tests, and the mock server.
pub mod Base
pub mod Ext
pub mod Secp
pub mod Types
pub mod Onion
pub mod Store
pub mod Node
pub mod Wallet
pub mod Server
pub mod Rpc
pub mod Config
pub mod Main
pub mod Examples
