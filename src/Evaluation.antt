-- ===== src/Evaluation.antt =====
-- The evaluation of items on a realm: apps/market/src/services/evaluation.service.ts, with the
-- types of libs/resources/src/types/evaluation/evaluation.interface.ts.
pub mod Numbers
pub mod Prices
pub mod Costs
pub mod Methods
pub mod Item
pub mod Crafts
pub mod Ranking
pub mod Best
pub mod Totals
pub mod Found
pub mod Profit
pub mod Table
pub mod Examples
