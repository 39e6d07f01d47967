-- ===== src/Storage.antt =====
-- src/edgar/storage: the content-addressed store.
pub mod Objects
