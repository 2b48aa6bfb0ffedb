-- ===== src/Examples.antt =====
-- Concrete runs: the theorems at inputs where their conditions hold.
mod Fixture
mod Chain
mod Worker
mod System
mod Origins
mod Delivery
mod Prices
mod Races
mod Runtime
mod Others
mod Scripts
mod Starts
