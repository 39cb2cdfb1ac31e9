-- ===== src/Yield/Plan/Withdrawals.antt =====
-- src/providers/yield-optimization.ts: the maps of `candidatePlan` and the loops over its sources.
use positioncrew.Prelude.{
  ℕ, ◌+◌, ◌-◌, Bool, true, false, not, ◌||◌, Option, none, some, List, [], ◌∷◌, ◌==◌, if◌then◌else◌,
  Text, text_eq, value_or,
}
use positioncrew.Prelude.Throws.{◌>>=◌}
use positioncrew.Prelude.Dict.{Dict, lookup, insert}
use positioncrew.Prelude.Integers.{ℤ, pos, ◌-ℤ◌}
use positioncrew.Core.Fixed.{minimum}
use positioncrew.Yield.{Holding, protocol_of, available_withdrawal}

-- `map.get(key) ?? 0n`
abbrev pub amount_at : Text → Dict ℕ → ℕ
amount_at k d = value_or 0 (lookup k d)

-- What is withdrawn so far.
pub record Draw : Type 0 where
  pub withdrawals : Dict ℕ
  pub total : ℕ

abbrev pub withdrawn_from : Draw → Holding → ℕ
withdrawn_from d source = amount_at source.opportunity_id d.withdrawals

abbrev pub has_withdrawal : Draw → Holding → Bool
has_withdrawal d source = elim (lookup source.opportunity_id d.withdrawals) [
  | none ↦ false
  | some amount ↦ true
]

-- `if (amount > 0n) withdrawals.set(id, entry)` and `totalWithdrawn += amount`
abbrev pub record_withdrawal : Holding → ℕ → ℕ → Draw → Draw
record_withdrawal source amount entry d = record {
  withdrawals =
      if amount == 0 then d.withdrawals else insert source.opportunity_id entry d.withdrawals;
  total = d.total + amount;
}

-- One source in the repair of a protocol: what is still required, and the withdrawals.
unfoldable pub repair_source : Text → ℕ → Holding → Draw → ℕ × Draw
repair_source protocol required source d =
    if not (text_eq (protocol_of source) protocol) || required == 0
    then (required, d)
    else let amount = minimum required (available_withdrawal source) in
      (required - amount, record_withdrawal source amount amount d)

unfoldable pub repair_sources : Text → ℕ → List Holding → Draw → Draw
repair_sources protocol required [] d = d
repair_sources protocol required (source ∷ sources) d =
    let (left, d') = repair_source protocol required source d in
    repair_sources protocol left sources d'

-- The loop that fills the shortfall: what is missing at its end, and the withdrawals. A source has
-- given at most what it has available.
unfoldable pub fill_shortfall : ℕ → List Holding → Draw → ℕ × Draw
fill_shortfall shortfall [] d = (shortfall, d)
fill_shortfall shortfall (source ∷ sources) d =
    if shortfall == 0
    then (shortfall, d)
    else let already = withdrawn_from d source in
      let amount = minimum shortfall (available_withdrawal source - already) in
      fill_shortfall (shortfall - amount) sources
        (record_withdrawal source amount (already + amount) d)

unfoldable pub available_by_protocol : List Holding → Dict ℕ → Dict ℕ
available_by_protocol [] d = d
available_by_protocol (source ∷ sources) d =
    let key = protocol_of source in
    available_by_protocol sources (insert key (amount_at key d + available_withdrawal source) d)

-- `new Map(heldByProtocol)`, with integers as its amounts.
abbrev pub signed_holdings : Dict ℕ → Dict ℤ
signed_holdings [] = []
signed_holdings ((protocol, held) ∷ d) = (protocol, pos held) ∷ signed_holdings d

-- `finalByProtocol` after the withdrawals; a protocol without a holding throws.
unfoldable pub final_holdings : Draw → List Holding → Dict ℤ → Option (Dict ℤ)
final_holdings d [] final = some final
final_holdings d (source ∷ sources) final = do
  current ← lookup (protocol_of source) final
  final_holdings d sources
      (insert (protocol_of source) (current -ℤ pos (withdrawn_from d source)) final)
