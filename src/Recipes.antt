-- ===== src/Recipes.antt =====
-- The tables that apps/market/src/services/xva.service.ts builds of recipes and spells.
pub mod Pricings
pub mod Named
pub mod Indexing
pub mod Labs
pub mod Sheets
pub mod Files
pub mod Examples
