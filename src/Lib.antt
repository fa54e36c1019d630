-- ===== src/Lib.antt =====
-- The Decentralised Interledger Bridge: nodes that listen to an initiator's ledger for transfers,
-- deliver their data to a responder's ledger, and report the outcome back as a commit or an abort.
--
-- The program's parts and the files that model them:
-- - Interfaces: src/interledger/adapter/interfaces.py, src/interledger/transfer.py and the node's
--   options of src/interledger/configs.py. The data that the core and the adapters exchange: a data
--   type for an enum or for a set of texts, a record for a dict with fixed keys. A key that may be
--   missing is an option. `id` and `initiator_id` of a transfer are the numbers of their texts.
-- - Timeout, of src/interledger/interledger.py: the age of a transfer, `resolve_timeout_period`,
--   `is_my_duty` and `is_timed_out`. Timeout/Periods, Timeout/Depth and Timeout/Bounds say what the
--   recursion computes, how deep it goes and how large it gets, Timeout/Duty and Timeout/Turns who
--   acts and when.
-- - Register: the dict of pending transfers, and the searches in it.
-- - Node, of the same source file. Node/Tasks has one coroutine for each method that awaits the
--   adapters: `process_initiator_event`, `execute_transfer`, `confirm_transfer`, `verify_transfer`
--   and `process_timeout`. A coroutine (Node/Calls) is the tree of what it does next: a call of an
--   adapter, a change of the register, a look at it, a reading of the clock, an exception. Node/System
--   runs coroutines on one register against an environment that answers every call with a value or an
--   exception, and logs the calls with their answers; the tasks of `asyncio.gather` take turns, from
--   one answer to the next, in an order that is an argument. Node/Loop is `_run` with the methods that
--   it calls. Node/Protocol says what a node may ask, given what it has seen; Node/Obedience,
--   Node/Safety, Node/Gathering and Node/Guarantees carry that from one coroutine over a turn and
--   a phase to the loop, and Node/Trace keeps where each answer in the log came from. Node/Behaviour
--   follows `execute_transfer` to the end, Node/Caution is about the calls of `process_timeout`, and
--   Node/Ends with Node/Ends/Rounds follows the rounds of the loop to their ends. Node/Credits and its children count: each pending transfer is a right to end it once,
--   which a task holds while it works on it.
-- - Ethereum: src/interledger/adapter/ethereum.py and `generate_hash_id` of
--   src/interledger/utils.py. Ethereum/Connection has the choice of the provider, Ethereum/Making
--   the constructors, Ethereum/Chain the block cache and `find_function_call`, Ethereum/Account
--   what all sending methods begin with, Ethereum/Sending the commit, the abort and the error
--   report, Ethereum/Delivery the responders, Ethereum/Watching the monitor of confirmations and
--   `check_confirmation`, Ethereum/Events the way from an event to a transfer and the searches for
--   its commit, abort and delivery, Ethereum/Filters `listen_for_events` and `check_response`.
--   Their children are about these definitions. Ethereum/Bridge puts the two adapters behind the
--   interface of Node/Calls, so that the loop runs between two Ethereum ledgers, and
--   Ethereum/Bridge/Receipts and Ethereum/Bridge/Deliveries are about that composition.
-- - Fabric: Fabric/Client is `chaincode_invoke` of src/interledger/adapter/fabric_client.py,
--   Fabric/Initializer and Fabric/Adapters what src/interledger/adapter/fabric.py makes an adapter
--   of, and the initiator and the responder; Fabric/Invoked and Fabric/Replies are about them.
-- - Indy: src/interledger/adapter/indy.py, the set-up of the handles and the polling of a key.
-- - Config: the parsers of src/interledger/configs.py and `parse_args_config` of start_dib.py.
--   Config/Texts has what the code uses of Python's texts, on lists of ASCII codes.
-- - Ksi: src/interledger/adapter/ksi.py, the responder that stores hashes with the KSI service.
-- - Start: start_dib.py, the adapters that a bridge is made of and the bridges that are started.
--   Start/Made fills its parameters with the parsers of Config, and Start/Script runs it all from
--   the command line.
-- - Demo: demo/cli/cli.py. Demo/Lines and Demo/Completion are the completion of the arguments on
--   lists of ASCII codes, Demo/Ledgers the start with its two ledgers and `send_transaction`,
--   Demo/Commands the commands, Demo/Session a line at the prompt. A command is a function from the
--   session (the world of the ledgers, the tokens that are known, the states that have been
--   printed) to a result and a session. Demo/Found and Demo/Completed are about the completion,
--   Demo/Seen, Demo/Handover and Demo/Waiting about what the ledgers have told, Demo/Kept and
--   Demo/Known about the tokens, Demo/Ready about the start.
-- - Prelude: exceptions and results, calls over a world that may raise, with what holds behind
--   them, dicts in insertion order, integers, lists, Boolean tests.
-- - Tests: a bridge, ledgers, a chain, an account, a Fabric network, an Indy library, a
--   configuration and a session of the demo on which the theorems are applied.
--
-- How the parts interact: the node calls the adapters only through the interface that Node/Calls
-- lists, and the theorems on the node hold for adapters that answer anything. The core takes the
-- node's options as non-negative numbers; Config/NodeOptions also parses negative ones. The theorems on the
-- Ethereum adapters are about the replies that this interface carries; Ethereum/Bridge joins both.
--
-- Bounds and fuel: `resolve_timeout_period` calls itself, so the depth that the interpreter allows
-- is an argument, and running out of it is Python's RecursionError and not an artefact of the
-- model. A loop has no fuel: `_run` takes the list of its rounds, which `stop` ends, and a `gather`
-- takes the order of turns; an order that ends before the tasks do leaves the loop pending there,
-- and Node/Ends is about orders that do not. The wait of the demo's `example_run` has a bound on
-- its polls, and Demo/Waiting is about how large it has to be. Times are whole clock ticks where
-- the code has a float; all numbers are unbounded as in Python. In Ethereum/Bridge the number of
-- the newest block is read from the world and never raises, and the chain stays as it is during one
-- `find_function_call`.
--
-- Parameters: web3 with its filters, `eth_abi`, hfc, the indy library, configparser, `cmd`, the
-- ledgers, `hashlib`, the KSI service and the clock are arguments, and may raise. Where a theorem
-- relies on them, its hypotheses name what it relies on: that unlocking and locking an account do
-- so, that the chain does not change, that its timestamps do not fall, that its inputs decode.
--
-- Not modelled: logging and printing, which nothing else reads, but for the states that the demo
-- prints; the tests, the documentation's build, the contracts on the ledgers.
pub mod Prelude
pub mod Interfaces
pub mod Timeout
pub mod Register
pub mod Node
pub mod Ethereum
pub mod Ksi
pub mod Config
pub mod Fabric
pub mod Indy
pub mod Start
pub mod Demo
pub mod Tests
