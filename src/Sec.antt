-- ===== src/Sec.antt =====
-- src/edgar/sec: the HTTP client and the policy of its destinations.
pub mod Destination
pub mod Fetch
