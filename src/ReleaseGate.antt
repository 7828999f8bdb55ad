-- ===== src/ReleaseGate.antt =====
-- environments: the release gate, which tests a candidate set of releases on a fork.
pub mod Chains
pub mod Services
pub mod Pins
pub mod Plans
pub mod Sources
pub mod Overlay
pub mod Candidates
pub mod Upgrades
pub mod Artifacts
pub mod Scan
pub mod Engine
pub mod Sections
pub mod Wasm
pub mod Form
pub mod Builds
pub mod Tests
