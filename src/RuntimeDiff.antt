-- ===== src/RuntimeDiff.antt =====
-- environments/runtime-diff: what a candidate runtime changes for the SDK.
pub mod Papi
pub mod Entries
pub mod Extensions
pub mod Surfaces
pub mod Links
pub mod Views
pub mod Tests
