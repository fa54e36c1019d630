-- ===== src/Ethereum.antt =====
-- src/interledger/adapter/ethereum.py: the Ethereum initiator and responder. web3 and the ledger
-- behind it are parameters.
pub mod Connection
pub mod Making
pub mod Chain
pub mod Account
pub mod Sending
pub mod Delivery
pub mod Watching
pub mod Events
pub mod Filters
pub mod Bridge
