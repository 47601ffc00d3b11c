-- ===== src/Tests.antt =====
-- Runs of the code at concrete inputs.
mod Amount
mod Coins
mod Network
mod Send
mod Open
mod Close
mod Payment
mod Invoice
mod Ledger
mod Engine
mod Lifecycle
mod Config
