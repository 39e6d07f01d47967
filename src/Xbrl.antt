-- ===== src/Xbrl.antt =====
-- src/edgar/xbrl: the records that a projection of a filing emits, and the locators of elements.
pub mod Records
pub mod Locators
pub mod Diagnostics
