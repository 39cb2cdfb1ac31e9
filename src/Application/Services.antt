-- ===== src/Application/Services.antt =====
-- src/providers/index.ts: the services behind their interface. The commitments and the data URI of
-- a request or a deliverable are parameters.
use positioncrew.Prelude.{ℕ, ◌≡◌, Bool, none, Text, ok}
use positioncrew.Contracts.{bounded_grid, lending_rescue, yield_optimization, ProviderStatus}
use positioncrew.Contracts.LendingRescue.{
  LendingRescueRequest, LendingRescueDeliverable, is_lending_request, is_lending_deliverable,
}
use positioncrew.Contracts.BoundedGrid.{
  BoundedGridRequest, BoundedGridDeliverable, is_grid_request, is_grid_deliverable,
}
use positioncrew.Contracts.YieldOptimization.{
  YieldOptimizationRequest, YieldOptimizationDeliverable, is_yield_request, is_yield_deliverable,
}
use positioncrew.Yield.Provider.{create_yield_optimization_deliverable}
use positioncrew.Yield.Actionable.{IsYield, actionable-IsYield}
use positioncrew.Commerce.Adapter.{Host, Adapter}
use positioncrew.Lending.{ActionHash}
use positioncrew.Lending.Provider.{create_lending_rescue_deliverable}
use positioncrew.Lending.Actionable.{IsRescue, actionable-IsRescue}
use positioncrew.Grid.Provider.{create_bounded_grid_deliverable}
use positioncrew.Grid.Actionable.{IsGrid, actionable-IsGrid}
use positioncrew.Application.{
  Service, Clock, RunProviderJobOptions, ProviderJobResult, run_provider_job,
}
use positioncrew.Application.Done.{run_provider_job-IsDone}

-- What commits to the values of a service.
pub record Commitments (Request Deliverable : Type 0) : Type 0 where
  pub of_request : Request → Text
  pub of_deliverable : Deliverable → Text
  pub as_uri : Deliverable → Text

abbrev pub grid_service :
    (Text → Text → Bool)
    → Commitments BoundedGridRequest BoundedGridDeliverable
    → Service BoundedGridRequest BoundedGridDeliverable
grid_service number_lt c = record {
  service = bounded_grid;
  base = λ (r : BoundedGridRequest). r.base;
  is_request = is_grid_request number_lt;
  is_deliverable = is_grid_deliverable;
  execute = create_bounded_grid_deliverable number_lt;
  status = λ (d : BoundedGridDeliverable). d.status;
  hash_request = c.of_request;
  hash_deliverable = c.of_deliverable;
  data_uri = c.as_uri;
}

abbrev pub lending_service :
    ActionHash
    → Commitments LendingRescueRequest LendingRescueDeliverable
    → Service LendingRescueRequest LendingRescueDeliverable
lending_service hash c = record {
  service = lending_rescue;
  base = λ (r : LendingRescueRequest). r.base;
  is_request = is_lending_request;
  is_deliverable = is_lending_deliverable;
  execute = create_lending_rescue_deliverable hash;
  status = λ (d : LendingRescueDeliverable). d.status;
  hash_request = c.of_request;
  hash_deliverable = c.of_deliverable;
  data_uri = c.as_uri;
}

abbrev pub yield_service :
    (Text → Text → Bool)
    → Commitments YieldOptimizationRequest YieldOptimizationDeliverable
    → Service YieldOptimizationRequest YieldOptimizationDeliverable
yield_service before c = record {
  service = yield_optimization;
  base = λ (r : YieldOptimizationRequest). r.base;
  is_request = is_yield_request;
  is_deliverable = is_yield_deliverable;
  execute = create_yield_optimization_deliverable before;
  status = λ (d : YieldOptimizationDeliverable). d.status;
  hash_request = c.of_request;
  hash_deliverable = c.of_deliverable;
  data_uri = c.as_uri;
}

module _ (host : Host) (clock : Clock) (now : ℕ) where
  -- A grid job that returns with an ACTIONABLE deliverable, none having been given to it, returns one
  -- that keeps the promises of an actionable grid.
  pub run_provider_job-IsGrid :
      (number_lt : Text → Text → Bool) (c : Commitments BoundedGridRequest BoundedGridDeliverable)
      (request : BoundedGridRequest)
      (options : RunProviderJobOptions BoundedGridRequest BoundedGridDeliverable) (s s' : Adapter)
      {r : ProviderJobResult BoundedGridRequest BoundedGridDeliverable}
      → options.deliverable ≡ none
      → run_provider_job host clock (grid_service number_lt c) request now options s ≡ (ok r, s')
      → r.deliverable.status ≡ ProviderStatus.actionable
      → IsGrid number_lt request now r.deliverable
  run_provider_job-IsGrid number_lt c request options s s' own h a =
      let done =
        run_provider_job-IsDone host clock (grid_service number_lt c) request now options s s' h in
      actionable-IsGrid number_lt request now (rw own at done.delivered) a

  -- A lending job that returns with an ACTIONABLE deliverable, none having been given to it, returns
  -- one that keeps the promises of an actionable rescue.
  pub run_provider_job-IsRescue :
      (hash : ActionHash) (c : Commitments LendingRescueRequest LendingRescueDeliverable)
      (request : LendingRescueRequest)
      (options : RunProviderJobOptions LendingRescueRequest LendingRescueDeliverable)
      (s s' : Adapter) {r : ProviderJobResult LendingRescueRequest LendingRescueDeliverable}
      → options.deliverable ≡ none
      → run_provider_job host clock (lending_service hash c) request now options s ≡ (ok r, s')
      → r.deliverable.status ≡ ProviderStatus.actionable
      → IsRescue hash request now r.deliverable
  run_provider_job-IsRescue hash c request options s s' own h a =
      let done =
        run_provider_job-IsDone host clock (lending_service hash c) request now options s s' h in
      actionable-IsRescue hash request now (rw own at done.delivered) a

  -- A yield job that returns with an ACTIONABLE deliverable, none having been given to it, returns one
  -- that keeps the promises of an actionable yield move.
  run_provider_job-IsYield :
      (before : Text → Text → Bool)
      (c : Commitments YieldOptimizationRequest YieldOptimizationDeliverable)
      (request : YieldOptimizationRequest)
      (options : RunProviderJobOptions YieldOptimizationRequest YieldOptimizationDeliverable)
      (s s' : Adapter) {r : ProviderJobResult YieldOptimizationRequest YieldOptimizationDeliverable}
      → options.deliverable ≡ none
      → run_provider_job host clock (yield_service before c) request now options s ≡ (ok r, s')
      → r.deliverable.status ≡ ProviderStatus.actionable
      → IsYield before request now r.deliverable
  run_provider_job-IsYield before c request options s s' own h a =
      let done =
        run_provider_job-IsDone host clock (yield_service before c) request now options s s' h in
      actionable-IsYield before request now (rw own at done.delivered) a
