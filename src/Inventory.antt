-- ===== src/Inventory.antt =====
-- apps/asset/src/shared/inventory-core.ts: the rules that every stock movement shares.
mod Tests
pub mod Quota
pub mod Fifo
pub mod Items
pub mod Flows
pub mod Warehouse
