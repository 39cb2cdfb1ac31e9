-- ===== src/Lib.antt =====
-- PositionCrew: models and proofs.
--
-- PositionCrew sells four services on DeFi positions. A client creates a job for a request and funds
-- it, a provider answers the request with a deliverable, an evaluator judges it, and the job is
-- completed or rejected. Modelled are the arithmetic under all services, the lending rescue from its
-- request to its deliverable, the bounded grid and the yield optimization likewise, the range of an
-- LP position, the check of the evidence that the services other than the rescue share, the store of
-- jobs, and the run of a job over that store.
--
-- Parts, with paths from the repository's root:
--   Prelude: Boolean tests on numbers, lists, texts as lists of codes, results, sorting, and a `Map` with
--     text keys as an association list (Prelude/Dict).
--   Core/Fixed: src/core/fixed.ts. `parseFixed` is parse_fixed, `formatFixed` is format_fixed (with the
--     sign, format_signed), `tokenBaseUnitsForUsd` is token_base_units_for_usd, and so on. Its children
--     prove the round trip (RoundTrip) and what the roundings give (Bounds).
--   Contracts: src/contracts/common.ts and, in Contracts/LendingRescue, src/contracts/lending-rescue.ts.
--     A zod schema is a record of its fields and a Boolean test of them.
--   Lending: src/domain/lending-math.ts: `calculateLendingPosition` is calculate_lending_position,
--     `buildLendingActionCandidates` is build_lending_action_candidates, each round of its two loops a
--     function of its own. Lending/Provider: src/providers/lending-rescue.ts, with
--     `createLendingRescueDeliverable` as create_lending_rescue_deliverable.
--   Evidence: src/providers/provider-utils.ts: `validateEvidence`, which the other three providers call,
--     is validate_evidence.
--   Contracts/BoundedGrid: src/contracts/bounded-grid.ts. Grid: Grid/Cycle is
--     src/core/grid-cycle-economics.ts, Grid/Risk is src/providers/bounded-grid-risk.ts and
--     Grid/Provider is src/providers/bounded-grid.ts: `createBoundedGridDeliverable` is
--     create_bounded_grid_deliverable, with its closure `planForBudget` as plan_for_budget, what it
--     closes over as the record GridSetup, and its loop as search_budget. The two sides that a cycle
--     matches are sorted copies of the rows in the source too; the sums over the rows do not depend
--     on their order, and are taken over the two sides one after the other.
--   Contracts/YieldOptimization: src/contracts/yield-optimization.ts. Yield:
--     src/providers/yield-optimization.ts, `portfolioInputIssues` and what it needs. Yield/Plan:
--     `candidatePlan` is candidate_plan; what it closes over is the record YieldRoute, one round of its
--     loop is attempt, with plan_withdrawals, settle_round and conclude as its parts. Yield/Sources:
--     `fundingSourceSets` is funding_source_sets, a list of what the generator yields. Yield/Provider:
--     `createYieldOptimizationDeliverable` is create_yield_optimization_deliverable. Of the other
--     files, Keys, Loop and Eligible are about the rounds of a plan, Draws, Repair, Funding, Sums and
--     Accounts about its accounts, Greedy, Sets and Apart about the sets, Best, Candidates and Choice
--     about the choice, Portfolio and Rate about what is held.
--   Commerce: src/commerce/types.ts. Commerce/Adapter: src/commerce/memory-adapter.ts; a method is a
--     function of the store that gives its outcome and the store after it, after a throw as well. The
--     steps on one job (fund_step, submit_step) stand apart from the lookup (on_job): a step mutates the
--     job's object in place, and gives the object as it leaves it with its result or its error. In
--     Commerce/Reference are the outcomes that the steps come to, without the object.
--     Commerce/Store has the interface as the type Call, and run, which makes a call.
--     Commerce/Stage says what each state of a job means for the rest of its record.
--   Contracts/LpRebalance: src/contracts/lp-rebalance.ts, its request. Lp/Range: src/core/lp-range.ts:
--     `boundedLpRange` is bounded_lp_range; Lp/Feasible says what it finds. Lp/Refusal:
--     src/evaluators/lp-refusal-feasibility.ts, with Lp/Impossible about it. A tick is an integer of
--     Prelude/Integers.
--   Application: src/application/run-provider-job.ts: `runProviderJob` is run_provider_job, a function of
--     the store, with the services behind the record Service. Application/Services has the services of
--     src/providers/index.ts that are modelled, Application/Accepts what each call of the adapter gives
--     on a job that is ready for it.
--
-- The provider reads its request and the time and gives a value: no state is kept between answers. The
-- adapter keeps the jobs and the idempotency keys. A run of the adapter is a list of calls, in any
-- order and with any arguments (Reached); its methods do not await anything between reading a job
-- and writing it, so that calls do not interleave.
--
-- Numbers: BigInt is ℕ, unbounded, where the source's values are never negative, and `none` or
-- `err` is a throw. Times are milliseconds as `Date.parse` gives them, so a timestamp is its text with
-- that number. Loops are structural recursion. Three run on fuel: the printing of a
-- number in decimal is given the number itself, which has no more digits than that; the search for the
-- size of a grid is given the capital and one, and each of its rounds brings its bounds nearer; the
-- rounds of a yield plan are given the number of its sources and one, and a round that another
-- follows leaves out a source.
--
-- Parameters: the SHA-256 commitments of src/core/canonical.ts (Host, ActionHash, Commitments), zod's
-- test of a URL, the comparison of two decimals by `Number` (number_lt), `localeCompare` (before), the
-- texts of times (Clock), and the evaluator that a run is given. Nothing is assumed of them but what a theorem's hypotheses
-- state: one on collisions, and, where a run is to end, that what it hands to the adapter passes the
-- adapter's schemas.
--
-- Not modelled: the texts of a deliverable (summary, conditions, limitations, reasons) with the length
-- limits that their schema sets; the LP service beyond its range, whose inventory exposure is floating
-- point; the other evaluators; the on-chain lifecycle, the stores on SQL, the marketplace's adapters,
-- the reports, the API, the web client and the worker, most of which is input and output.
pub mod Prelude
pub mod Core
pub mod Contracts
pub mod Lending
pub mod Commerce
pub mod Evidence
pub mod Grid
pub mod Lp
pub mod Application
pub mod Yield
