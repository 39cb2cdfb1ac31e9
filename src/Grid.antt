-- ===== src/Grid.antt =====
-- src/core/grid-cycle-economics.ts and the providers of bounded grids.
pub mod Cycle
pub mod Risk
pub mod Matching
pub mod Sums
pub mod Monotone
pub mod Plans
pub mod Search
pub mod Inversion
pub mod Provider
mod Setup
mod Placed
mod Worth
pub mod Actionable
pub mod Samples
mod Tests
