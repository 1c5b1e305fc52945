-- ===== src/Tests.antt =====
-- Runs of the model, and the theorems at concrete inputs.
mod Data
mod Orders
mod Matching
mod Venue
mod Reference
mod Auction
mod Fix
mod Binary
