-- ===== src/Tests.antt =====
-- Runs on concrete inputs, at which the theorems apply.
mod Bridge
mod Times
mod Transfers
mod Ledger
mod Accounts
mod Services
mod Scripts
mod Bridging
mod Fabrics
mod Indies
mod Configs
mod Demos
