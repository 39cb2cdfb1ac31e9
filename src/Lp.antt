-- ===== src/Lp.antt =====
-- The rebalancing of LP positions: src/core/lp-range.ts and
-- src/evaluators/lp-refusal-feasibility.ts.
pub mod Range
mod Multiples
pub mod Feasible
pub mod Refusal
mod Impossible
mod Tests
