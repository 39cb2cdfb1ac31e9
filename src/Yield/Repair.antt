-- ===== src/Yield/Repair.antt =====
-- The two loops over the sources of a plan, and what they count.
use positioncrew.Prelude.{
  ℕ, ◌+◌, ◌-◌, ◌≤◌, ◌≡◌, ◌≢◌, refl, sym, ap, ◌∙◌, true, false, not, ◌||◌, List, [], ◌∷◌, arith,
  ◌==◌, All, inl, inr, Bool-cases, Text, text_eq,
}
use mathlib.Core.Path.{subst}
use positioncrew.Core.Fixed.{minimum}
use positioncrew.Yield.{Holding, protocol_of, available_withdrawal}
use positioncrew.Yield.Plan.{
  Draw, withdrawn_from, record_withdrawal, repair_source, repair_sources, fill_shortfall,
}
use positioncrew.Yield.Draws.{
  Gives, IsCounted, apart, IsCounted-refl, IsCounted-cons, DistinctIds, record_withdrawal-Gives,
}

-- One source of a repair gives an amount, nothing where it is of another protocol.
repair_source-Gives :
    (protocol : Text) (required : ℕ) (source : Holding) (d : Draw)
    → (text_eq (protocol_of source) protocol ≡ true → withdrawn_from d source ≡ 0)
    → (amount : ℕ) × Gives source amount d (repair_source protocol required source d).1
      × (withdrawn_from d source ≤ available_withdrawal source
          → withdrawn_from d source + amount ≤ available_withdrawal source)
      × (text_eq (protocol_of source) protocol ≡ false
          → (repair_source protocol required source d).1 ≡ d)
unfolding repair_source minimum
repair_source-Gives protocol required source d untouched =
    elim (Bool-cases (not (text_eq (protocol_of source) protocol) || required == 0)) [
      | inl passed ↦
          rw passed (0, (omega arith, omega arith, λ h ne. refl), λ b. omega arith, λ e. refl)
      | inr taken ↦
          let fresh = untouched (ground arith) in
          let amount = minimum required (available_withdrawal source) in
          let given = record_withdrawal-Gives source amount amount d (omega (arith, fresh)) in
          rw taken (amount, given, λ b. ground arith, λ e. ground arith)
    ]

-- Nothing was withdrawn yet from the sources of a protocol.
abbrev pub Untouched : Text → List Holding → Draw → Type 0
Untouched protocol sources d =
    All (λ (s : Holding). text_eq (protocol_of s) protocol ≡ true → withdrawn_from d s ≡ 0) sources

Untouched-Gives :
    (protocol : Text) (source : Holding) (amount : ℕ) (d d' : Draw) (sources : List Holding)
    → Gives source amount d d'
    → All (λ (h : Holding). source.opportunity_id ≢ h.opportunity_id) sources
    → Untouched protocol sources d
    → Untouched protocol sources d'
Untouched-Gives protocol source amount d d' [] g ne u = tt
Untouched-Gives protocol source amount d d' (s ∷ sources) g ne u =
    (λ e. g.2 s ne.0 ∙ u.0 e, Untouched-Gives protocol source amount d d' sources g ne.1 u.1)

pub repair_sources-IsCounted :
    (protocol : Text) (required : ℕ) (sources : List Holding) (d : Draw)
    → DistinctIds sources
    → Untouched protocol sources d
    → IsCounted sources d (repair_sources protocol required sources d)
unfolding repair_sources
repair_sources-IsCounted protocol required [] d ne u = IsCounted-refl [] d
repair_sources-IsCounted protocol required (source ∷ sources) d ne u =
    let (amount, given, fits, _) = repair_source-Gives protocol required source d u.0 in
    let (left, d₁) = repair_source protocol required source d in
    IsCounted-cons source sources amount d d₁ (repair_sources protocol left sources d₁) ne.0 given
      fits
      (repair_sources-IsCounted protocol left sources d₁ ne.1
        (Untouched-Gives protocol source amount d d₁ sources given ne.0 u.1))

others-Gives :
    (protocol : Text) (source : Holding) (amount : ℕ) (d d₁ d' : Draw) (sources : List Holding)
    → Gives source amount d d₁
    → All (λ (h : Holding). source.opportunity_id ≢ h.opportunity_id) sources
    → All
        (λ (s : Holding).
          text_eq (protocol_of s) protocol ≡ false → withdrawn_from d' s ≡ withdrawn_from d₁ s)
        sources
    → All
        (λ (s : Holding).
          text_eq (protocol_of s) protocol ≡ false → withdrawn_from d' s ≡ withdrawn_from d s)
        sources
others-Gives protocol source amount d d₁ d' [] g ne h = tt
others-Gives protocol source amount d d₁ d' (s ∷ sources) g ne h =
    (λ e. h.0 e ∙ g.2 s ne.0, others-Gives protocol source amount d d₁ d' sources g ne.1 h.1)

-- The sources of the other protocols give nothing.
pub repair_sources-others :
    (protocol : Text) (required : ℕ) (sources : List Holding) (d : Draw)
    → DistinctIds sources
    → Untouched protocol sources d
    → All
        (λ (s : Holding).
          text_eq (protocol_of s) protocol ≡ false
          → withdrawn_from (repair_sources protocol required sources d) s ≡ withdrawn_from d s)
        sources
unfolding repair_sources
repair_sources-others protocol required [] d ne u = tt
repair_sources-others protocol required (source ∷ sources) d ne u =
    let (amount, given, fits, skip) = repair_source-Gives protocol required source d u.0 in
    let (left, d₁) = repair_source protocol required source d in
    let d' = repair_sources protocol left sources d₁ in
    let kept = Untouched-Gives protocol source amount d d₁ sources given ne.0 u.1 in
    let counted = repair_sources-IsCounted protocol left sources d₁ ne.1 kept in
    (
      λ e.
          counted.1 source (apart source sources ne.0)
          ∙ ap (λ (t : Draw). withdrawn_from t source) (skip e),
      others-Gives protocol source amount d d₁ d' sources given ne.0
          (repair_sources-others protocol left sources d₁ ne.1 kept),
    )

pub fill_shortfall-IsCounted :
    (shortfall : ℕ) (sources : List Holding) (d : Draw)
    → DistinctIds sources
    → IsCounted sources d (fill_shortfall shortfall sources d).1
unfolding fill_shortfall minimum
fill_shortfall-IsCounted shortfall [] d ne = IsCounted-refl [] d
fill_shortfall-IsCounted shortfall (source ∷ sources) d ne = elim (Bool-cases (shortfall == 0)) [
  | inl full ↦
      let stop : (fill_shortfall shortfall (source ∷ sources) d).1 ≡ d = rw full refl in
      subst (λ (t : Draw). IsCounted (source ∷ sources) d t) (sym stop)
        (IsCounted-refl (source ∷ sources) d)
  | inr more ↦
      let already = withdrawn_from d source in
      let amount = minimum shortfall (available_withdrawal source - already) in
      let d₁ = record_withdrawal source amount (already + amount) d in
      let fits : already ≤ available_withdrawal source
          → already + amount ≤ available_withdrawal source =
        λ b. ground arith in
      let step : (fill_shortfall shortfall (source ∷ sources) d).1
          ≡ (fill_shortfall (shortfall - amount) sources d₁).1 =
        rw more refl in
      subst (λ (t : Draw). IsCounted (source ∷ sources) d t) (sym step)
        (IsCounted-cons source sources amount d d₁
          (fill_shortfall (shortfall - amount) sources d₁).1 ne.0
          (record_withdrawal-Gives source amount (already + amount) d refl) fits
          (fill_shortfall-IsCounted (shortfall - amount) sources d₁ ne.1))
]

-- What is missing at the end is what the withdrawals leave of the shortfall.
pub fill_shortfall-total :
    (shortfall : ℕ) (sources : List Holding) (d : Draw)
    → (fill_shortfall shortfall sources d).1.total + (fill_shortfall shortfall sources d).0
      ≡ d.total + shortfall
unfolding fill_shortfall minimum
fill_shortfall-total shortfall [] d = refl
fill_shortfall-total shortfall (source ∷ sources) d = elim (Bool-cases (shortfall == 0)) [
  | inl full ↦ rw full refl
  | inr more ↦
      let already = withdrawn_from d source in
      let amount = minimum shortfall (available_withdrawal source - already) in
      let d₁ = record_withdrawal source amount (already + amount) d in
      let below : amount ≤ shortfall = ground arith in
      let rest = fill_shortfall-total (shortfall - amount) sources d₁ in
      rw more (omega (arith, rest, below))
]
