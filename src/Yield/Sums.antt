-- ===== src/Yield/Sums.antt =====
-- The sum of the final holdings in `candidatePlan`.
use positioncrew.Prelude.{
  ℕ, ◌+◌, ◌≤◌, ◌≡◌, refl, Bool, true, some, List, [], ◌∷◌, map, arith, all, All, inl, inr,
  Bool-cases, some_inj, Text, text_eq, value_or,
}
use positioncrew.Prelude.Throws.{>>=-eq-some}
use positioncrew.Prelude.Dict.{Dict, lookup, insert}
use positioncrew.Prelude.Sort
use positioncrew.Prelude.Sort.{sort}
use positioncrew.Prelude.Integers.{ℤ, pos, negsuc, pos_part, neg_part, ◌-ℤ◌, -ℤ_parts}
use positioncrew.Yield.{Holding, protocol_of, sum_of}
use positioncrew.Yield.Plan.{
  Draw, YieldRoute, withdrawn_from, final_holdings, signed_holdings, is_within, protocol_limit,
}

-- The sum of the amounts of a list or a map.
abbrev pub sum_amounts : List (Text × ℕ) → ℕ
sum_amounts [] = 0
sum_amounts ((k, n) ∷ es) = n + sum_amounts es

abbrev pub sum_parts : (ℤ → ℕ) → Dict ℤ → ℕ
sum_parts part [] = 0
sum_parts part ((k, z) ∷ d) = part z + sum_parts part d

pub sum_parts-insert :
    (part : ℤ → ℕ) (k : Text) (z : ℤ) (d : Dict ℤ)
    → part (pos 0) ≡ 0
    → sum_parts part (insert k z d) + part (value_or (pos 0) (lookup k d))
      ≡ sum_parts part d + part z
unfolding insert lookup
sum_parts-insert part k z [] h = omega (arith, h)
sum_parts-insert part k z ((j, y) ∷ d) h = elim (Bool-cases (text_eq k j)) [
  | inl same ↦ rw same (omega arith)
  | inr other ↦ rw other (omega (arith, sum_parts-insert part k z d h))
]

-- What the withdrawals take from the holdings.
pub final_holdings-sum :
    (d : Draw) (sources : List Holding) (final f : Dict ℤ)
    → final_holdings d sources final ≡ some f
    → sum_parts pos_part f + sum_parts neg_part final + sum_of (withdrawn_from d) sources
      ≡ sum_parts neg_part f + sum_parts pos_part final
unfolding final_holdings
final_holdings-sum d [] final f e = let same = some_inj e in rw same (omega arith)
final_holdings-sum d (source ∷ sources) final f e =
    let k = protocol_of source in
    let (current, found, more) =
      >>=-eq-some (lookup k final)
        (λ current.
          final_holdings d sources (insert k (current -ℤ pos (withdrawn_from d source)) final))
        e in
    let next = current -ℤ pos (withdrawn_from d source) in
    let up = rw found at (sum_parts-insert pos_part k next final refl) in
    let down = rw found at (sum_parts-insert neg_part k next final refl) in
    let change = -ℤ_parts current (pos (withdrawn_from d source)) in
    let rest = final_holdings-sum d sources (insert k next final) f more in
    omega (arith, up, down, change, rest)

pub sum_parts-signed_holdings :
    (d : Dict ℕ)
    → (sum_parts pos_part (signed_holdings d) ≡ sum_amounts d)
      × (sum_parts neg_part (signed_holdings d) ≡ 0)
sum_parts-signed_holdings [] = (refl, refl)
sum_parts-signed_holdings ((k, n) ∷ d) =
    let (up, down) = sum_parts-signed_holdings d in (omega (arith, up), omega (arith, down))

sum_amounts-insert :
    (first : Text × ℕ → Text × ℕ → Bool) (e : Text × ℕ) (es : List (Text × ℕ))
    → sum_amounts (Sort.insert first e es) ≡ e.1 + sum_amounts es
unfolding Sort.insert
sum_amounts-insert first e [] = refl
sum_amounts-insert first e (x ∷ es) = elim (Bool-cases (first e x)) [
  | inl before ↦ rw before refl
  | inr after ↦ rw after (omega (arith, sum_amounts-insert first e es))
]

pub sum_amounts-sort :
    (first : Text × ℕ → Text × ℕ → Bool) (es : List (Text × ℕ))
    → sum_amounts (sort first es) ≡ sum_amounts es
unfolding Sort.sort
sum_amounts-sort first [] = refl
sum_amounts-sort first (e ∷ es) =
    omega (arith, sum_amounts-insert first e (sort first es), sum_amounts-sort first es)

module _ (r : YieldRoute) (sources : List Holding) where
  -- Holdings within the limit: none is below 0.
  pub within-parts :
      (d : Dict ℤ)
      → all (λ (e : Text × ℤ). is_within r sources e.1) d ≡ true
      → (sum_parts neg_part d ≡ 0)
        × (sum_parts pos_part d ≡ sum_amounts (map (λ (e : Text × ℤ). (e.0, pos_part e.1)) d))
        × All
            (λ (e : Text × ℕ). e.1 ≤ protocol_limit r sources)
            (map (λ (e : Text × ℤ). (e.0, pos_part e.1)) d)
  within-parts [] h = (refl, refl, tt)
  within-parts ((k, pos n) ∷ d) h =
      let (down, up, bounds) = within-parts d (ground arith) in
      (omega (arith, down), omega (arith, up), (ground arith, bounds))
  within-parts ((k, negsuc n) ∷ d) h = absurd (ground arith)
