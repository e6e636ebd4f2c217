-- ===== src/Cost.antt =====
-- The AWS cost poller, apps/awscost.
pub mod Attrs
pub mod Estimate
pub mod Prices
pub mod Inventory
pub mod Samples
pub mod Emit
pub mod Poller
pub mod Period
pub mod Main
