-- ===== src/Demo.antt =====
-- demo/cli/cli.py: the command line demo, which mints tokens on two Ethereum ledgers and transfers
-- them over the bridge. Printing is left out. A text is a list of ASCII codes.
pub mod Lines
pub mod Completion
pub mod Found
pub mod Completed
pub mod Ledgers
pub mod Commands
pub mod Session
pub mod Seen
pub mod Handover
pub mod Kept
pub mod Known
pub mod Waiting
pub mod Ready
