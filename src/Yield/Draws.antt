-- ===== src/Yield/Draws.antt =====
-- The withdrawals of `candidatePlan`: what each source gives and what their total counts.
use positioncrew.Prelude.{
  ℕ, ◌+◌, ◌≤◌, ◌≡◌, ◌≢◌, refl, sym, ◌∙◌, false, List, [], ◌∷◌, map, arith, any, All, All-imp, inl,
  inr, Bool-cases, Text, text_eq, text_eq_iff,
}
use positioncrew.Prelude.Dict.{lookup-insert_self, lookup-insert_ne}
use positioncrew.Yield.{Holding, has_duplicate, available_withdrawal, sum_of}
use positioncrew.Yield.Plan.{Draw, withdrawn_from, record_withdrawal}

-- The entries carry different texts.
module _ {ℓ} {A : Type ℓ} (name : A → Text) where
  abbrev pub Distinct : List A → Type ℓ
  Distinct [] = Unit
  Distinct (x ∷ xs) = All (λ y. name x ≢ name y) xs × Distinct xs

  not_any-All :
      (t : Text) (xs : List A) → any (text_eq t) (map name xs) ≡ false → All (λ y. t ≢ name y) xs
  not_any-All t [] h = tt
  not_any-All t (x ∷ xs) h =
      (λ e. ground (arith, text_eq_iff t (name x)), not_any-All t xs (ground arith))

  pub has_duplicate-Distinct : (xs : List A) → has_duplicate (map name xs) ≡ false → Distinct xs
  unfolding has_duplicate
  has_duplicate-Distinct [] h = tt
  has_duplicate-Distinct (x ∷ xs) h =
      (not_any-All (name x) xs (ground arith), has_duplicate-Distinct xs (ground arith))

  All-not_any :
      (t : Text) (xs : List A) → All (λ y. t ≢ name y) xs → any (text_eq t) (map name xs) ≡ false
  All-not_any t [] h = refl
  All-not_any t (x ∷ xs) h = elim (Bool-cases (text_eq t (name x))) [
    | inl same ↦ absurd (h.0 ((text_eq_iff t (name x)).0 same))
    | inr other ↦ rw other (All-not_any t xs h.1)
  ]

  pub Distinct-has_duplicate : (xs : List A) → Distinct xs → has_duplicate (map name xs) ≡ false
  unfolding has_duplicate
  Distinct-has_duplicate [] h = refl
  Distinct-has_duplicate (x ∷ xs) h =
      rw (All-not_any (name x) xs h.0) (Distinct-has_duplicate xs h.1)

-- What a withdrawal changes.
withdrawn_from-other :
    (source h : Holding) (amount entry : ℕ) (d : Draw)
    → source.opportunity_id ≢ h.opportunity_id
    → withdrawn_from (record_withdrawal source amount entry d) h ≡ withdrawn_from d h
withdrawn_from-other source h amount entry d ne =
    let same =
      lookup-insert_ne h.opportunity_id source.opportunity_id entry d.withdrawals
        (λ e. ne (sym e)) in
    ground arith

withdrawn_from_self :
    (source : Holding) (amount entry : ℕ) (d : Draw)
    → withdrawn_from d source + amount ≡ entry
    → withdrawn_from (record_withdrawal source amount entry d) source
      ≡ withdrawn_from d source + amount
withdrawn_from_self source amount entry d e =
    let same = lookup-insert_self source.opportunity_id entry d.withdrawals in ground arith

sum-withdrawn_other :
    (source : Holding) (amount entry : ℕ) (d : Draw) (sources : List Holding)
    → All (λ (h : Holding). source.opportunity_id ≢ h.opportunity_id) sources
    → sum_of (withdrawn_from (record_withdrawal source amount entry d)) sources
      ≡ sum_of (withdrawn_from d) sources
sum-withdrawn_other source amount entry d [] h = refl
sum-withdrawn_other source amount entry d (s ∷ sources) h = omega (
  arith,
  withdrawn_from-other source s amount entry d h.0,
  sum-withdrawn_other source amount entry d sources h.1,
)

-- A withdrawal of an amount from one source.
abbrev pub Gives : Holding → ℕ → Draw → Draw → Type 0
Gives source amount d d' =
    (withdrawn_from d' source ≡ withdrawn_from d source + amount)
    × (d'.total ≡ d.total + amount)
    × ((h : Holding)
        → source.opportunity_id ≢ h.opportunity_id
        → withdrawn_from d' h ≡ withdrawn_from d h)

pub record_withdrawal-Gives :
    (source : Holding) (amount entry : ℕ) (d : Draw)
    → withdrawn_from d source + amount ≡ entry
    → Gives source amount d (record_withdrawal source amount entry d)
record_withdrawal-Gives source amount entry d e = (
  withdrawn_from_self source amount entry d e,
  refl,
  λ h ne. withdrawn_from-other source h amount entry d ne,
)

-- Withdrawals from some sources: the total counts them, no other source gives anything, and none
-- gives more than it has available.
abbrev pub IsCounted : List Holding → Draw → Draw → Type 0
IsCounted sources d d' =
    (sum_of (withdrawn_from d') sources + d.total ≡ sum_of (withdrawn_from d) sources + d'.total)
    × ((h : Holding)
        → All (λ (s : Holding). s.opportunity_id ≢ h.opportunity_id) sources
        → withdrawn_from d' h ≡ withdrawn_from d h)
    × (All (λ (s : Holding). withdrawn_from d s ≤ available_withdrawal s) sources
        → All (λ (s : Holding). withdrawn_from d' s ≤ available_withdrawal s) sources)

abbrev pub DistinctIds : List Holding → Type 0
DistinctIds = Distinct (λ (h : Holding). h.opportunity_id)

pub IsCounted-refl : (sources : List Holding) (d : Draw) → IsCounted sources d d
IsCounted-refl sources d = (refl, λ h ne. refl, λ h. h)

sum-Gives :
    (source : Holding) (amount : ℕ) (d d' : Draw) (sources : List Holding)
    → Gives source amount d d'
    → All (λ (h : Holding). source.opportunity_id ≢ h.opportunity_id) sources
    → sum_of (withdrawn_from d') sources ≡ sum_of (withdrawn_from d) sources
sum-Gives source amount d d' [] g h = refl
sum-Gives source amount d d' (s ∷ sources) g h =
    omega (arith, g.2 s h.0, sum-Gives source amount d d' sources g h.1)

bounded-Gives :
    (source : Holding) (amount : ℕ) (d d' : Draw) (sources : List Holding)
    → Gives source amount d d'
    → All (λ (h : Holding). source.opportunity_id ≢ h.opportunity_id) sources
    → All (λ (s : Holding). withdrawn_from d s ≤ available_withdrawal s) sources
    → All (λ (s : Holding). withdrawn_from d' s ≤ available_withdrawal s) sources
bounded-Gives source amount d d' [] g h b = tt
bounded-Gives source amount d d' (s ∷ sources) g h b =
    (rw (g.2 s h.0) b.0, bounded-Gives source amount d d' sources g h.1 b.1)

pub apart :
    (source : Holding) (sources : List Holding)
    → All (λ (h : Holding). source.opportunity_id ≢ h.opportunity_id) sources
    → All (λ (h : Holding). h.opportunity_id ≢ source.opportunity_id) sources
apart source sources ne =
    All-imp (λ (h : Holding). source.opportunity_id ≢ h.opportunity_id)
      (λ (h : Holding). h.opportunity_id ≢ source.opportunity_id) sources (λ s k e. k (sym e)) ne

-- One source, then the others.
pub IsCounted-cons :
    (source : Holding) (sources : List Holding) (amount : ℕ) (d d₁ d' : Draw)
    → All (λ (h : Holding). source.opportunity_id ≢ h.opportunity_id) sources
    → Gives source amount d d₁
    → (withdrawn_from d source ≤ available_withdrawal source
        → withdrawn_from d source + amount ≤ available_withdrawal source)
    → IsCounted sources d₁ d'
    → IsCounted (source ∷ sources) d d'
IsCounted-cons source sources amount d d₁ d' ne g fits c =
    let kept : withdrawn_from d' source ≡ withdrawn_from d source + amount =
      c.1 source (apart source sources ne) ∙ g.0 in
    let rest = sum-Gives source amount d d₁ sources g ne in
    (
      omega (arith, c.0, g.1),
      λ h k. c.1 h k.1 ∙ g.2 h k.0,
      λ b. (rw kept (fits b.0), c.2 (bounded-Gives source amount d d₁ sources g ne b.1)),
    )
