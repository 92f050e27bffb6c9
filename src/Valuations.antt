-- ===== src/Valuations.antt =====
-- The asset classes and tags of items, and the tables of recipes:
-- apps/market/src/services/xva.service.ts.
pub mod Items
pub mod Store
pub mod Tags
pub mod Stages
pub mod Chunks
pub mod Classes
pub mod Growth
pub mod Runs
pub mod Skips
pub mod Tagged
pub mod Examples
