-- ===== src/Ocw.antt =====
-- The ocw pallet (pallets/ocw-pallet/src/lib.rs): prices fetched offchain, and staked processors.
pub mod Types
pub mod Prices
pub mod Staking
pub mod Unsigned
pub mod Offchain
pub mod Senders
pub mod Average
pub mod Feed
pub mod Stakes
pub mod Rate
pub mod Chain
pub mod Invariant
pub mod History
pub mod Timing
pub mod Interval
pub mod Choice
