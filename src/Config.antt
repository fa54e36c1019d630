-- ===== src/Config.antt =====
-- src/interledger/configs.py, and `parse_args_config` of start_dib.py.
pub mod Texts
pub mod Arguments
pub mod Parsers
pub mod NodeOptions
pub mod LedgerOptions
pub mod Numerals
pub mod Overrides
