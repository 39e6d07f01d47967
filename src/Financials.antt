-- ===== src/Financials.antt =====
-- The package edgar.financials: which value of a filing is published for a metric.
pub mod Models
pub mod Decimals
pub mod Decisions
pub mod Period
pub mod Select
pub mod Gold
pub mod Taxonomy
pub mod Quality
pub mod Scenarios
