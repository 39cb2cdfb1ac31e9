-- ===== src/Application/Tests.antt =====
-- A grid job from its request to its completion, and the properties of runs at it.
use positioncrew.Prelude.{
  value_or, ◌≡◌, refl, true, false, none, some, [], ◌∷◌, codes, ok, Text, if◌then◌else◌, arith,
}
use positioncrew.Contracts.{
  ProviderStatus, is_address, is_asset_identity, is_base_request, is_positive_decimal,
  is_request_window, is_source, is_unsigned_decimal, is_hash,
}
use positioncrew.Contracts.BoundedGrid.{
  BoundedGridRequest, BoundedGridDeliverable, is_grid_request, is_grid_constraints,
  is_grid_deliverable, is_grid_market, is_grid_order,
}
use positioncrew.Commerce.{
  JobEnvelope, FundingReceipt, DeliverableManifest, EvaluationReceipt, JobRecord, completed,
  rejected, is_envelope, is_budget, is_funding_receipt, is_manifest, is_check, computed_score,
  critical_failure, is_evaluation_receipt,
}
use positioncrew.Commerce.Adapter.{
  Host, Adapter, empty_adapter, create_job, fund, assign_provider, assign_evaluator,
  submit_deliverable, evaluate, on_job, mark_assigned_when_ready, transition, new_job, fund_step,
  prior_step, submit_step, evaluate_step, assign_provider_step, assign_evaluator_step,
}
use positioncrew.Core.Fixed.{
  parse_fixed, minimum, match_decimal, ceil_divide, digits, divide_fixed, format_fixed, span_digits,
  strip_zeros, to_big_int, to_string, value_from,
}
use positioncrew.Grid.Cycle.{
  match_orders, add_cycle, add_row, calculate_grid_cycle_economics, match_rows, row_of,
}
use positioncrew.Grid.Provider.{
  plan_for_budget, respects_risk_limits, search_budget, size_plan, create_bounded_grid_deliverable,
  answer_market, answer_levels, levels_from, answer_sized, orders_for_budget, all_orders_positive,
  economics_pass, empty_result, grid_result, order_at, quote_per_level,
}
use positioncrew.Evidence.{
  validate_evidence, inconsistencies, mismatches, observation_problems, future_sources, too_old,
}
use positioncrew.Lending.Provider.{find_source}
use positioncrew.Grid.Risk.{add_orders, calculate_bounded_grid_risk}
use positioncrew.Prelude.Sort.{insert as insert_row, sort}
use positioncrew.Prelude.Dict.{lookup, insert}
use positioncrew.Lending.Samples.{at_ms}
use positioncrew.Grid.Samples.{number_lt, request, delivered}
use positioncrew.Grid.Actionable.{IsGrid}
use positioncrew.Application.{
  Service, RunProviderJobOptions, ProviderJobResult, run_provider_job, deliver_job,
  judge_deliverable, job_envelope,
}
use positioncrew.Application.Accepts.{Holds}
use positioncrew.Application.Completes.{IsRunnable, run_provider_job-completes}
use positioncrew.Application.Done.{IsDone, run_provider_job-IsDone}
use positioncrew.Application.Services.{Commitments, grid_service, run_provider_job-IsGrid}

abbrev hash_text : Text
hash_text = codes "sha256:0123456789abcdef0123456789abcdef0123456789abcdef0123456789abcdef"

abbrev host : Host
host = record {
  hash_envelope = λ (e : JobEnvelope). hash_text;
  hash_job = λ h. hash_text;
  hash_funding = λ (r : FundingReceipt). r.transaction_reference;
  hash_manifest = λ (m : DeliverableManifest). m.uri;
  hash_body = λ b. hash_text;
  hash_receipt = λ (r : EvaluationReceipt). r.evaluator_id;
  is_url = λ s. true;
}

abbrev commitments : Commitments BoundedGridRequest BoundedGridDeliverable
commitments = record {
  of_request = λ r. hash_text;
  of_deliverable = λ d. hash_text;
  as_uri = λ d. codes "data:application/json;base64,e30=";
}

abbrev service : Service BoundedGridRequest BoundedGridDeliverable
service = grid_service number_lt commitments

abbrev receipt : EvaluationReceipt
receipt = record {
  body = record {
    rubric_version = codes "v2";
    request_hash = hash_text;
    deliverable_hash = hash_text;
    evaluator_id = codes "positioncrew:evaluator:bounded_grid:v1";
    evaluated_at = at_ms 1_000_000;
    score = 100;
    passed = true;
    checks =
        record {
          id = codes "schema";
          label = codes "Strict versioned contracts parse";
          weight = 100;
          critical = true;
          passed = true;
          evidence = codes "v1";
        }
        ∷ [];
  };
  evaluation_hash = hash_text;
}

abbrev options : RunProviderJobOptions BoundedGridRequest BoundedGridDeliverable
options = record {
  persist_expired_refusal = false;
  request_hash = none;
  provider_id = none;
  evaluator_id = none;
  deliverable = none;
  evaluator = λ r d e n h. some receipt;
}

runnable : IsRunnable host at_ms service request 1_000_000 options empty_adapter
unfolding create_bounded_grid_deliverable is_grid_request match_decimal parse_fixed
    validate_evidence inconsistencies mismatches observation_problems find_source future_sources
    too_old answer_market answer_levels levels_from answer_sized size_plan plan_for_budget
    orders_for_budget is_grid_constraints is_grid_deliverable is_grid_market is_grid_order
    is_address is_asset_identity is_base_request is_positive_decimal is_request_window is_source
    is_unsigned_decimal ceil_divide digits divide_fixed format_fixed minimum span_digits strip_zeros
    to_big_int to_string value_from add_cycle add_row calculate_grid_cycle_economics match_orders
    match_rows row_of all_orders_positive economics_pass empty_result grid_result order_at
    quote_per_level respects_risk_limits search_budget add_orders calculate_bounded_grid_risk
    insert_row sort is_hash is_envelope is_budget is_funding_receipt is_manifest is_check
    computed_score critical_failure is_evaluation_receipt lookup
runnable = record {
  valid = refl;
  envelope = refl;
  fresh = refl;
  receipt = refl;
  provider = omega arith;
  evaluator = omega arith;
  deliverable = delivered;
  delivered = refl;
  deliverable_valid = refl;
  refusal = refl;
  manifest = refl;
  evaluation = receipt;
  judged = refl;
  evaluation_valid = refl;
  committed = refl;
  of_deliverable = refl;
  of_request = refl;
  by_evaluator = refl;
}

run_provider_job-completes_example :
    (job : JobRecord) × (s' : Adapter) × (run_provider_job host at_ms service request 1_000_000
        options empty_adapter
      ≡ (
        ok (record {
          job = job;
          request = request;
          deliverable = runnable.deliverable;
          evaluation = runnable.evaluation;
        }),
        s',
      ))
    × (job.state ≡ (if runnable.evaluation.passed then completed else rejected))
    × Holds job.job_id job s'
run_provider_job-completes_example =
    run_provider_job-completes host at_ms service request 1_000_000 options empty_adapter runnable

abbrev final : Adapter
final = (run_provider_job host at_ms service request 1_000_000 options empty_adapter).1

abbrev job_id : Text
job_id = codes "job_0123456789abcdef01234567"

abbrev finished : ProviderJobResult BoundedGridRequest BoundedGridDeliverable
finished = record {
  job =
      value_or (new_job host (job_envelope host at_ms service request 1_000_000 options))
        (lookup job_id final.jobs);
  request = request;
  deliverable = delivered;
  evaluation = receipt;
}

finished_made :
    (run_provider_job host at_ms service request 1_000_000 options empty_adapter
      ≡ (ok finished, final))
    × (finished.job.state ≡ completed)
    × (finished.deliverable.status ≡ ProviderStatus.actionable)
unfolding create_bounded_grid_deliverable is_grid_request match_decimal parse_fixed
    validate_evidence inconsistencies mismatches observation_problems find_source future_sources
    too_old answer_market answer_levels levels_from answer_sized size_plan plan_for_budget
    orders_for_budget is_grid_constraints is_grid_deliverable is_grid_market is_grid_order
    is_address is_asset_identity is_base_request is_positive_decimal is_request_window is_source
    is_unsigned_decimal ceil_divide digits divide_fixed format_fixed minimum span_digits strip_zeros
    to_big_int to_string value_from add_cycle add_row calculate_grid_cycle_economics match_orders
    match_rows row_of all_orders_positive economics_pass empty_result grid_result order_at
    quote_per_level respects_risk_limits search_budget add_orders calculate_bounded_grid_risk
    insert_row sort is_hash is_envelope is_budget is_funding_receipt is_manifest is_check
    computed_score critical_failure is_evaluation_receipt lookup run_provider_job deliver_job
    judge_deliverable create_job fund assign_provider assign_evaluator submit_deliverable evaluate
    on_job prior_step fund_step submit_step evaluate_step assign_provider_step assign_evaluator_step
    mark_assigned_when_ready transition insert
finished_made = (refl, refl, refl)

run_provider_job-IsDone_example : IsDone host at_ms service request 1_000_000 options finished
run_provider_job-IsDone_example =
    run_provider_job-IsDone host at_ms service request 1_000_000 options empty_adapter final
      finished_made.0

run_provider_job-IsGrid_example : IsGrid number_lt request 1_000_000 finished.deliverable
run_provider_job-IsGrid_example =
    run_provider_job-IsGrid host at_ms 1_000_000 number_lt commitments request options empty_adapter
      final refl finished_made.0 finished_made.2
