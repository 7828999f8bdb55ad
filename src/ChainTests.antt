-- ===== src/ChainTests.antt =====
-- packages/chain-tests: the library that the tests of a live network share.
pub mod Task
pub mod Bytes
pub mod Ring
pub mod Networks
pub mod Contexts
pub mod Identity
pub mod Caches
pub mod Claims
pub mod Attested
pub mod RuntimeReads
pub mod Host
pub mod Requests
pub mod Probes
pub mod Tests
