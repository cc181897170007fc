-- ===== src/Lib.antt =====
-- The payment channel node of this repository: a Go process that keeps payment channels on the
-- Algorand chain with other such nodes. A node serves RPC methods to its user (rpcserver.go) and
-- requests to its peers (server.go), which it makes itself with sendRequest (client.go). Balances
-- change by states that both sides sign (payment/operation.go). A watchtower (watchtower.go) looks
-- at the contracts of the open channels and disputes a closing with a worse state.
--
-- Parts and files:
--   Base             lists, byte strings, maps, int64 and uint64, and what the program uses of
--                    strconv, fmt, encoding/binary and encoding/base64 (Base/Decimal,
--                    Base/BigEndian, Base/Base64).
--   Payment/Sdk      ed25519, SHA3-256 and the address codec: parameters of the model. IsKeyPair is
--                    what is asked of ed25519 where a theorem needs it.
--   Payment/Message  the bytes that SignState, SignClose, VerifyState and VerifyClose hash.
--   Payment/Signing  these four functions of payment/operation.go.
--   Payment/Calls    the functions of payment/operation.go that send transactions. Each returns the
--                    group that it sends, the signing key with it. Budget: the extra transactions.
--   Payment/Sandbox  the accounts of a node and of the sandbox's wallet (payment/testing/setup.go).
--                    Wallets: what GetSandboxAccounts returns.
--   Contract/State, Program    the approval program of payment/payment_contract.py: its global state,
--                    and one definition for each of its methods.
--   Contract/Group, Calls    the transactions of payment/operation.go, run against the program.
--   Contract/Agreement, Closing, Disputes, Funding, Opening, Payout, Nodes, Paid    what the node and
--                    the contract do together, from OpenChannel to the payments of a closing.
--   Contract/Reading     a report of the contract's state, and the partner's node that reads it.
--   Contract/Balance, Trace    the contract as a state machine that anybody may call.
--   Contract/Rules   what the contract promises its parties, without the code of its methods. Methods,
--                    Closings, Disputes and Refinement hold the code against it. Deposits: what it
--                    pays out.
--   Contract/Cheating    TryToCheat against the other node's watchtower.
--   Server/State     the records of server.go and client.go, and World: what one operation finds
--                    outside, from the algod node to the clock and the peers.
--   Server/Action    operations on the server that may end early: by `reject` to a peer, by an
--                    error, by log.Fatalf or by a panic. What was written before stays written.
--   Server/Log       getLatestOffChainState and getHighestBalanceOffChainState of server.go.
--   Server/GlobalState   GetValueOfGlobalState, parseInt, doOpenChannelSecurityChecks and
--                    savePaymentChannelOnChainState of server.go. Checks: who passes.
--   Server/Peer      handleConnection of server.go, by its cases. Acceptance, Progress and Payments:
--                    pay requests.
--   Server/Watchtower    the loop of watchtower.go: its body and a pass over the channels. Disputes:
--                    when it disputes. Rounds: a round while the node goes on. Effects: what it
--                    does to channels. Visits: a channel that is being closed. Outcomes, Passes: a
--                    round in which nothing else happens, and a pass in the order of the list.
--   Server/Start     initializeServer of server.go, Reset of rpcserver.go and FundAccount.
--   Server/Rpc       the other methods of rpcserver.go, with sendRequest.
--                    Transfer, Agreement and Closing: two nodes, one of which serves the other.
--                    Failures: how the methods fail.
--   Server/Invariant, Growth, Opening, Steps, Reach    what holds of the channels and logs of a
--                    node, and the node as a state machine, whose steps are whole operations and
--                    single iterations of the watchtower. Reach/Distinct: its channels' partners.
--   Server/Views     a node's channel without log and signatures, which payments refine.
--   Cli              the commands of cmd/ascli. Commands: their flags, checks and requests. Declared,
--                    Complete: what they read, and when openchannel makes its request. Serving: a
--                    command with the node that serves it.
--   Process          asd.go, config.go, startListening and the two ends of handleConnection: the
--                    process of a node, and what happens to it until an event ends it. Starting:
--                    when it starts. Running: what its events do. Survival: which requests end it.
--                    Transport: a request of another node's sendRequest and its response. Requests,
--                    Payments: a payment between two processes.
--   Tests            two concrete nodes and a contract, and the theorems at them.
--
-- How the state corresponds: Server holds the fields of the Go struct `server` that operations read
-- or write, with a list of what the node has sent to the chain and a count of the watchtower loops
-- that it has started. A Go map is a list of entries, in any order: the order in which `range`
-- visits it. An int64 or uint64 is a number below 2 ^ 64, with int64 in two's complement, and
-- arithmetic that wraps round is written out (add64, sub64, slt).
--
-- Recursion is on lists. The only fuel is that of `emit` in Base/Decimal, 20 digits, which are
-- enough for a uint64.
--
-- The contract is the PyTeal program, in which every argument of And and Or is evaluated. A number
-- of its state that is not set reads as 0. Chain is what it reads of the chain: SHA3-256, ed25519,
-- the round, the fee and the application's id and address; SameCrypto says that the chain's hash and
-- signature check are those of the node, IsBinding that a signature stands for one key and message
-- and that no two texts have one hash. The program returns the payments that it makes.
--
-- A round of the watchtower follows Go's rules for a range over a map that changes meanwhile: the
-- order is open, an entry that is deleted before its turn is not visited, one that is added may be.
-- Between two of its iterations any operations of the node happen, other loops' iterations among
-- them. Reset gives the node new maps, and the round goes on over the old one.
--
-- Not modelled: the text of JSON, whose functions are parameters; a Read that returns less than has
-- been sent; the SDK's making, signing and sending of transactions, whose errors the program prints
-- and ignores outside of FundAccount; what two goroutines do to each other within one operation or
-- one iteration, which follow one another as a whole here; printed lines and the run times in the
-- responses; the ledger, which makes the contract's payments, counts the budget of a call and checks
-- fees; the parsing of the command line by urfave/cli; the gRPC server and its generated code; the
-- scripts, and the servers of images/, which are copies from the Algorand sandbox. The identifier
-- of an application, which OpenChannel prints as an int, is taken to be below 2 ^ 63.
pub mod Base
pub mod Payment
pub mod Contract
pub mod Server
pub mod Cli
pub mod Process
pub mod Tests
