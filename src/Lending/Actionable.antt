-- ===== src/Lending/Actionable.antt =====
-- The properties of `createLendingRescueDeliverable`.
use positioncrew.Prelude.{
  ℕ, ◌+◌, ◌*◌, ◌≤◌, ◌<◌, ◌≡◌, false, some, arith, All, All-imp, not-ltb→le, sym, ap, ◌∙◌, not,
}
use positioncrew.Core.Fixed.{parse_fixed, fixed_scale}
use positioncrew.Contracts.{SourceObservation, ProviderStatus}
use positioncrew.Contracts.LendingRescue.{LendingRescueRequest, LendingRescueDeliverable}
use positioncrew.Contracts.Valid.{
  parse_fixed_of_unsigned, parse_fixed_of_positive, base_request_decimals, lending_request_decimals,
}
use positioncrew.Lending.{
  LendingPositionMetrics, LendingActionCandidate, ActionHash, calculate_lending_position,
  execute_before,
}
use positioncrew.Lending.Provider.{
  priced_entries, source_integrity_problems, stale_sources, deliver, result_expiry, is_empty,
  create_lending_rescue_deliverable,
}
use positioncrew.Lending.Candidates.{IsAllowed, build_candidates_offer, comes_first→le}
use positioncrew.Lending.Deliverable.{
  IsSupported, IsFresh, problems_of-nil, filter-nil, is_empty-nil, source_expiry-bounds,
  create-Made, answer-actionable, Offers, rescue-Offers,
}

module _ (hash : ActionHash) (request : LendingRescueRequest) (now : ℕ) where
  -- What an actionable answer rests on.
  pub record IsRescue (d : LendingRescueDeliverable) : Type 0 where
    pub current : LendingPositionMetrics
    pub health : ℕ
    pub limit : ℕ
    pub max_gas : ℕ
    pub gas : ℕ
    pub measured : calculate_lending_position request fixed_scale ≡ some current
    pub known : current.health_factor ≡ some health
    pub offer : Offers hash request now current health d.recommendation d.alternatives
    pub in_time : now < request.deadline.ms
    pub supported : All (IsSupported request.sources now) (priced_entries request)
    pub fresh : All (IsFresh request.max_data_age_seconds now) request.sources
    pub limit_read : parse_fixed request.max_action_usd ≡ some limit
    pub max_gas_read : parse_fixed request.max_gas_usd ≡ some max_gas
    pub gas_read : parse_fixed request.estimated_gas_usd ≡ some gas
    pub affordable : gas ≤ max_gas
    pub allowed : IsAllowed request limit offer.best
    pub cheapest :
        All
          (λ (c : LendingActionCandidate). offer.best.capital_required_usd ≤ c.capital_required_usd)
          offer.others

  IsSupported-of :
      not (is_empty (source_integrity_problems request now)) ≡ false
      → All (IsSupported request.sources now) (priced_entries request)
  unfolding source_integrity_problems
  IsSupported-of h = problems_of-nil request.sources now _ (is_empty-nil _ h)

  IsFresh-of :
      not (is_empty (stale_sources request now)) ≡ false
      → All (IsFresh request.max_data_age_seconds now) request.sources
  unfolding stale_sources
  IsFresh-of h =
      filter-nil (IsFresh request.max_data_age_seconds now) _ request.sources
        (λ s k. not-ltb→le _ now k) (is_empty-nil _ h)

  -- An ACTIONABLE answer is given in time, on prices that their sources support and that are fresh
  -- enough; the health factor of the position is below the target; the recommended plan is of an
  -- allowed kind, within the action limit, with the gas within its limit; and no alternative needs
  -- less capital.
  pub actionable-IsRescue :
      {d : LendingRescueDeliverable}
      → create_lending_rescue_deliverable hash request now ≡ some d
      → d.status ≡ ProviderStatus.actionable
      → IsRescue d
  unfolding deliver
  actionable-IsRescue {d} e s =
      let m = create-Made hash request now e in
      let status : m.found.status ≡ ProviderStatus.actionable =
        ap (λ (x : LendingRescueDeliverable). x.status) (sym m.delivered) ∙ s in
      let (health, known, rescued, in_time, consistent, young) =
        answer-actionable hash request now m.current m.answered status in
      let offer = rescue-Offers hash request now m.current health rescued status in
      let (base, unsigned) = lending_request_decimals request m.valid in
      let (action, ceiling) = base_request_decimals request.base base in
      let (limit, limit_read) = parse_fixed_of_positive request.max_action_usd action in
      let (max_gas, max_gas_read) = parse_fixed_of_positive request.max_gas_usd ceiling in
      let (gas, gas_read) = parse_fixed_of_unsigned request.estimated_gas_usd unsigned in
      let (all_allowed, sorted, affordable) =
        build_candidates_offer hash request m.current limit_read max_gas_read gas_read
          offer.built in
      rw m.delivered (record {
        current = m.current;
        health = health;
        limit = limit;
        max_gas = max_gas;
        gas = gas;
        measured = m.measured;
        known = known;
        offer = offer;
        in_time = in_time;
        supported = IsSupported-of consistent;
        fresh = IsFresh-of young;
        limit_read = limit_read;
        max_gas_read = max_gas_read;
        gas_read = gas_read;
        affordable = affordable (λ h. cc);
        allowed = all_allowed.0;
        cheapest = All-imp _ _ offer.others (λ c h. comes_first→le offer.best c h) sorted.0;
      })

  -- An answer expires no later than the deadline and than the age limit of each of its sources; an
  -- ACTIONABLE answer has not expired when it is given.
  pub deliverable_expiry :
      {d : LendingRescueDeliverable}
      → create_lending_rescue_deliverable hash request now ≡ some d
      → (d.expires_at ≤ request.deadline.ms)
        × All
            (λ (s : SourceObservation).
              d.expires_at ≤ s.observed_at.ms + request.max_data_age_seconds * 1_000)
            request.sources
        × (d.status ≡ ProviderStatus.actionable → now ≤ d.expires_at)
  unfolding deliver result_expiry
  deliverable_expiry {d} e =
      let m = create-Made hash request now e in
      let (before, ends, late) =
        source_expiry-bounds request.max_data_age_seconds request.deadline.ms now request.sources in
      let alive : d.status ≡ ProviderStatus.actionable → now ≤ execute_before request = λ s.
        let r = actionable-IsRescue e s in
        unfold execute_before in late (omega (arith, r.in_time)) r.fresh in
      let expires : d.expires_at ≡ execute_before request =
        ap (λ (x : LendingRescueDeliverable). x.expires_at) m.delivered in
      rw expires (before, ends, alive)
