-- ===== src/Fabric.antt =====
-- src/interledger/adapter/fabric_client.py and src/interledger/adapter/fabric.py: the client that
-- invokes chaincode, and the Fabric initiator and responder. The hfc library is a parameter.
pub mod Client
pub mod Invoked
pub mod Adapters
pub mod Initializer
pub mod Replies
