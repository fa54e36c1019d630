-- ===== src/Node.antt =====
-- src/interledger/interledger.py: the coroutines of a node. A coroutine is the tree of what it
-- does next: an awaited adapter call, an access to the register, a reading of the clock.
pub mod Calls
pub mod Tasks
pub mod System
pub mod Protocol
pub mod Obedience
pub mod Loop
pub mod Safety
pub mod Gathering
pub mod Credits
pub mod Ends
pub mod Guarantees
pub mod Trace
pub mod Running
pub mod Behaviour
pub mod Caution
