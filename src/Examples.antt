-- ===== src/Examples.antt =====
-- The theorems at concrete inputs.
mod Data
mod Sv2
mod Templates
mod Pool
mod Journal
mod Chain
mod Backend
mod Shares
mod Coinbases
mod Gcs
