-- ===== src/Domain.antt =====
-- The package edgar.domain: identities of filings and concepts, pure of any input or output.
pub mod Identifiers
pub mod Decode
pub mod Uri
pub mod Bundle
pub mod Scenarios
