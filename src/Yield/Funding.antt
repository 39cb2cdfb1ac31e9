-- ===== src/Yield/Funding.antt =====
-- The withdrawals that `candidatePlan` settles on.
use mathlib.Core.Path.{subst}
use positioncrew.Prelude.{
  ℕ, ◌+◌, ◌-◌, ◌≤◌, ◌≡◌, ◌≢◌, refl, sym, ap, ◌∙◌, false, none, some, List, [], ◌∷◌, arith, ltb,
  if◌then◌else◌, ◌⊎◌, ◌==◌, All, inl, inr, Bool-cases, some_inj, Text, text_eq, text_eq_iff,
}
use positioncrew.Prelude.Throws.{>>=-eq-some}
use positioncrew.Prelude.Dict.{Dict, lookup}
use positioncrew.Yield.{Holding, protocol_of, available_withdrawal, sum_of}
use positioncrew.Yield.Plan.{
  Draw, YieldRoute, withdrawn_from, repair_sources, fill_shortfall, repair_protocol,
  repair_exposures, plan_withdrawals, planned_allocation, migration_cost, protocol_limit,
  destination, amount_at, available_by_protocol,
}
use positioncrew.Yield.Draws.{Distinct, DistinctIds, IsCounted}
use positioncrew.Yield.Repair.{
  Untouched, repair_sources-IsCounted, repair_sources-others, fill_shortfall-IsCounted,
  fill_shortfall-total,
}

-- Withdrawals whose total is that of the sources, none above what its source has available.
abbrev pub IsFunded : List Holding → Draw → Type 0
IsFunded sources d =
    (sum_of (withdrawn_from d) sources ≡ d.total)
    × All (λ (s : Holding). withdrawn_from d s ≤ available_withdrawal s) sources

IsFunded-counted :
    (sources : List Holding) (d d' : Draw)
    → IsFunded sources d
    → IsCounted sources d d'
    → IsFunded sources d'
IsFunded-counted sources d d' h c = (omega (arith, h.0, c.0), c.2 h.1)

-- The sources of the protocols to come are untouched.
abbrev AwaitsRepair : Dict ℕ → List Holding → Draw → Type 0
AwaitsRepair rest sources d = All (λ (e : Text × ℕ). Untouched e.0 sources d) rest

-- Repairing one protocol leaves the others untouched.
Untouched-repair :
    (protocol other : Text) (required : ℕ) (sources : List Holding) (d : Draw)
    → DistinctIds sources
    → protocol ≢ other
    → Untouched protocol sources d
    → Untouched other sources d
    → Untouched other sources (repair_sources protocol required sources d)
Untouched-repair protocol other required sources d ne apart u v =
    go sources (repair_sources-others protocol required sources d ne u) v
  where
    go :
        (ss : List Holding)
        → All
            (λ (s : Holding).
              text_eq (protocol_of s) protocol ≡ false
              → withdrawn_from (repair_sources protocol required sources d) s ≡ withdrawn_from d s)
            ss
        → Untouched other ss d
        → Untouched other ss (repair_sources protocol required sources d)
    go [] h k = tt
    go (s ∷ ss) h k = (
      λ e.
          let unlike : text_eq (protocol_of s) protocol ≡ false =
            elim (Bool-cases (text_eq (protocol_of s) protocol)) [
              | inr no_match ↦ no_match
              | inl same ↦ absurd (
                  apart (
                    sym ((text_eq_iff (protocol_of s) protocol).0 same)
                    ∙ (text_eq_iff (protocol_of s) other).0 e))
            ] in
          h.0 unlike ∙ k.0 e,
      go ss h.1 k.1,
    )

awaits-repair :
    (protocol : Text) (required : ℕ) (rest : Dict ℕ) (sources : List Holding) (d : Draw)
    → DistinctIds sources
    → All (λ (e : Text × ℕ). protocol ≢ e.0) rest
    → Untouched protocol sources d
    → AwaitsRepair rest sources d
    → AwaitsRepair rest sources (repair_sources protocol required sources d)
awaits-repair protocol required [] sources d ne apart u h = tt
awaits-repair protocol required ((other, held) ∷ rest) sources d ne apart u h = (
  Untouched-repair protocol other required sources d ne apart.0 u h.0,
  awaits-repair protocol required rest sources d ne apart.1 u h.1,
)

-- The keys of a map differ.
abbrev pub DistinctKeys : Dict ℕ → Type 0
DistinctKeys = Distinct (λ (e : Text × ℕ). e.0)

abbrev nothing_withdrawn : Draw
nothing_withdrawn = record { withdrawals = []; total = 0 }

Untouched-nothing : (protocol : Text) (ss : List Holding) → Untouched protocol ss nothing_withdrawn
unfolding lookup
Untouched-nothing protocol [] = tt
Untouched-nothing protocol (s ∷ ss) = (λ e. refl, Untouched-nothing protocol ss)

awaits-nothing :
    (rest : Dict ℕ) (sources : List Holding) → AwaitsRepair rest sources nothing_withdrawn
awaits-nothing [] sources = tt
awaits-nothing ((protocol, held) ∷ rest) sources =
    (Untouched-nothing protocol sources, awaits-nothing rest sources)

funded-nothing : (ss : List Holding) → IsFunded ss nothing_withdrawn
unfolding lookup
funded-nothing [] = (refl, tt)
funded-nothing (s ∷ ss) =
    let (total, each) = funded-nothing ss in (omega (arith, total), (omega arith, each))

module _ (r : YieldRoute) (sources : List Holding) (ne : DistinctIds sources) where
  repair_protocol-eq-some :
      (available : Dict ℕ) (protocol : Text) (held : ℕ) (d d' : Draw)
      → repair_protocol r sources available protocol held d ≡ some d'
      → (d ≡ d') ⊎ ((required : ℕ) × (repair_sources protocol required sources d ≡ d'))
  unfolding repair_protocol
  repair_protocol-eq-some available protocol held d d' e =
      let target = if text_eq protocol (destination r) then planned_allocation r sources else 0 in
      let required = held + target - protocol_limit r sources in
      elim (Bool-cases (required == 0)) [
        | inl within ↦ inl (some_inj (rw within at e))
        | inr above ↦ elim (Bool-cases (ltb (amount_at protocol available) required)) [
          | inl stuck ↦ absurd (let e' = rw (above, stuck) at e in cc)
          | inr able ↦ inr (required, some_inj (rw (above, able) at e))
        ]
      ]

  repair_exposures-funded :
      (available rest : Dict ℕ) (d d' : Draw)
      → DistinctKeys rest
      → AwaitsRepair rest sources d
      → IsFunded sources d
      → repair_exposures r sources available rest d ≡ some d'
      → IsFunded sources d'
  unfolding repair_exposures repair_protocol
  repair_exposures-funded available [] d d' keys w h e =
      subst (λ (t : Draw). IsFunded sources t) (some_inj e) h
  repair_exposures-funded available ((protocol, held) ∷ rest) d d' keys w h e =
      let (d₁, made, more) =
        >>=-eq-some (repair_protocol r sources available protocol held d)
          (repair_exposures r sources available rest) e in
      elim (repair_protocol-eq-some available protocol held d d₁ made) [
        | inl same ↦
            repair_exposures-funded available rest d₁ d' keys.1
              (subst (λ (t : Draw). AwaitsRepair rest sources t) same w.1)
              (subst (λ (t : Draw). IsFunded sources t) same h) more
        | inr (required, same) ↦
            let repaired = repair_sources protocol required sources d in
            repair_exposures-funded available rest d₁ d' keys.1
              (subst (λ (t : Draw). AwaitsRepair rest sources t) same
                (awaits-repair protocol required rest sources d ne keys.0 w.0 w.1))
              (subst (λ (t : Draw). IsFunded sources t) same
                (IsFunded-counted sources d repaired h
                  (repair_sources-IsCounted protocol required sources d ne w.0)))
              more
      ]

  -- The withdrawals that a plan settles on are counted by their total, which the spend does not fall
  -- below and which with the idle capital covers it.
  pub plan_withdrawals-funded :
      (d : Draw)
      → DistinctKeys r.held_by_protocol
      → plan_withdrawals r sources ≡ some d
      → IsFunded sources d
        × (d.total ≤ planned_allocation r sources + migration_cost r sources)
        × (planned_allocation r sources + migration_cost r sources ≤ d.total + r.idle_capital)
  unfolding plan_withdrawals
  plan_withdrawals-funded d keys e =
      let spend = planned_allocation r sources + migration_cost r sources in
      let available = available_by_protocol sources [] in
      let (repaired, made, more) =
        >>=-eq-some (repair_exposures r sources available r.held_by_protocol nothing_withdrawn)
          (λ repaired.
            if ltb spend repaired.total
            then none
            else let (missing, d) =
                fill_shortfall (spend - repaired.total - r.idle_capital) sources repaired in
              if ltb 0 missing then none else some d)
          e in
      let funded =
        repair_exposures-funded available r.held_by_protocol nothing_withdrawn repaired keys
          (awaits-nothing r.held_by_protocol sources) (funded-nothing sources) made in
      let shortfall = spend - repaired.total - r.idle_capital in
      let counted = fill_shortfall-IsCounted shortfall sources repaired ne in
      let total = fill_shortfall-total shortfall sources repaired in
      let filled = fill_shortfall shortfall sources repaired in
      elim (Bool-cases (ltb spend repaired.total)) [
        | inl over ↦ absurd (let e' = rw over at more in cc)
        | inr within ↦ elim (Bool-cases (ltb 0 filled.0)) [
          | inl short ↦ absurd (let e' = rw (within, short) at more in cc)
          | inr full ↦
              let same : filled.1 ≡ d = some_inj (rw (within, full) at more) in
              let count = ap (λ (t : Draw). t.total) same in
              (
                subst (λ (t : Draw). IsFunded sources t) same
                    (IsFunded-counted sources repaired filled.1 funded counted),
                ground arith,
                ground arith,
              )
        ]
      ]
