-- ===== src/Grid/Matching.antt =====
-- What the matching of buys and sells comes to.
use positioncrew.Prelude.{
  ℕ, ◌+◌, ◌-◌, ◌≤◌, ◌≡◌, refl, Bool, true, false, List, [], ◌∷◌, ◌==◌, arith, All, filter, ◌⊎◌, inl,
  inr, Bool-cases, All-filter,
}
use positioncrew.Prelude.Sort.{sort, insert, All-sort}
use positioncrew.Core.Fixed.{minimum}
use positioncrew.Grid.Cycle.{
  CycleRow, is_buy, is_sell, better_buy, better_sell, with_matched, Matched, add_buy, add_sell,
  match_rows, match_orders,
}

abbrev pub total : (CycleRow → ℕ) → List CycleRow → ℕ
total f [] = 0
total f (r ∷ rows) = f r + total f rows

abbrev pub total_amount : List CycleRow → ℕ
total_amount rows = total (λ (r : CycleRow). r.amount) rows

abbrev pub total_matched : List CycleRow → ℕ
total_matched rows = total (λ (r : CycleRow). r.matched) rows

abbrev pub IsFresh : CycleRow → Type 0
IsFresh r = r.matched ≡ 0

-- No row matches more than its amount.
abbrev pub IsWithin : CycleRow → Type 0
IsWithin r = r.matched ≤ r.amount

abbrev pub buys_of : List CycleRow → List CycleRow
buys_of rows = filter (λ (r : CycleRow). is_buy r.side) rows

abbrev pub sells_of : List CycleRow → List CycleRow
sells_of rows = filter (λ (r : CycleRow). is_sell r.side) rows

-- What the first row has matched so far is within its amount.
abbrev HeadBound : List CycleRow → ℕ → Type 0
HeadBound [] m = m ≡ 0
HeadBound (r ∷ rows) m = m ≤ r.amount

HeadBound-zero : (rows : List CycleRow) → HeadBound rows 0
HeadBound-zero [] = refl
HeadBound-zero (r ∷ rows) = omega arith

total_matched-fresh : (rows : List CycleRow) → All IsFresh rows → total_matched rows ≡ 0
total_matched-fresh [] h = refl
total_matched-fresh (r ∷ rows) h = omega (arith, h.0, total_matched-fresh rows h.1)

fresh-IsWithin : (rows : List CycleRow) → All IsFresh rows → All IsWithin rows
fresh-IsWithin [] h = tt
fresh-IsWithin (r ∷ rows) h = (omega (arith, h.0), fresh-IsWithin rows h.1)

pub record Matches (buys : List CycleRow) (m : ℕ) (sells : List CycleRow) (n : ℕ) (out : Matched)
    : Type 0 where
  pub bought : total_matched out.0 ≡ m + minimum (total_amount buys - m) (total_amount sells - n)
  pub sold : total_matched out.1 ≡ n + minimum (total_amount buys - m) (total_amount sells - n)
  pub buys_within : All IsWithin out.0
  pub sells_within : All IsWithin out.1

-- A round of the loop, with what is matched in it.
module _ (bid : CycleRow) (buys : List CycleRow) (m : ℕ) (ask : CycleRow) (sells : List CycleRow)
    (n q : ℕ) (least : minimum (bid.amount - m) (ask.amount - n) ≡ q) where
  match_rows-both :
      m + q == bid.amount ≡ true
      → n + q == ask.amount ≡ true
      → match_rows (bid ∷ buys) m (ask ∷ sells) n
        ≡ add_buy
            (with_matched bid (m + q))
            (add_sell (with_matched ask (n + q)) (match_rows buys 0 sells 0))
  unfolding match_rows
  match_rows-both b a = rw (match_rows, least, b, least, a, least) refl

  match_rows-bid :
      m + q == bid.amount ≡ true
      → n + q == ask.amount ≡ false
      → match_rows (bid ∷ buys) m (ask ∷ sells) n
        ≡ add_buy (with_matched bid (m + q)) (match_rows buys 0 (ask ∷ sells) (n + q))
  unfolding match_rows
  match_rows-bid b a = rw (match_rows, least, b, least, a, least) refl

  match_rows-ask :
      m + q == bid.amount ≡ false
      → n + q == ask.amount ≡ true
      → match_rows (bid ∷ buys) m (ask ∷ sells) n
        ≡ add_sell (with_matched ask (n + q)) (match_rows (bid ∷ buys) (m + q) sells 0)
  unfolding match_rows
  match_rows-ask b a = rw (match_rows, least, b, least, a, least) refl

minimum_cases :
    (a b : ℕ) → ((minimum a b ≤ a) × (minimum a b ≤ b)) × ((minimum a b ≡ a) ⊎ (minimum a b ≡ b))
unfolding minimum
minimum_cases a b = ground arith

-- One round more, from what the rest of the loop comes to.
module _ (bid : CycleRow) (buys : List CycleRow) (m : ℕ) (ask : CycleRow) (sells : List CycleRow)
    (n q : ℕ) (rest : Matched) where
  Matches-both :
      m + q ≡ bid.amount
      → n + q ≡ ask.amount
      → Matches buys 0 sells 0 rest
      → Matches
          (bid ∷ buys)
          m
          (ask ∷ sells)
          n
          (add_buy (with_matched bid (m + q)) (add_sell (with_matched ask (n + q)) rest))
  unfolding minimum
  Matches-both b a r = record {
    bought = ground (arith, r.bought);
    sold = ground (arith, r.sold);
    buys_within = (omega arith, r.buys_within);
    sells_within = (omega arith, r.sells_within);
  }

  Matches-bid :
      m + q ≡ bid.amount
      → n + q ≤ ask.amount
      → Matches buys 0 (ask ∷ sells) (n + q) rest
      → Matches (bid ∷ buys) m (ask ∷ sells) n (add_buy (with_matched bid (m + q)) rest)
  unfolding minimum
  Matches-bid b a r = record {
    bought = ground (arith, r.bought);
    sold = ground (arith, r.sold);
    buys_within = (omega arith, r.buys_within);
    sells_within = r.sells_within;
  }

  Matches-ask :
      m + q ≤ bid.amount
      → n + q ≡ ask.amount
      → Matches (bid ∷ buys) (m + q) sells 0 rest
      → Matches (bid ∷ buys) m (ask ∷ sells) n (add_sell (with_matched ask (n + q)) rest)
  unfolding minimum
  Matches-ask b a r = record {
    bought = ground (arith, r.bought);
    sold = ground (arith, r.sold);
    buys_within = r.buys_within;
    sells_within = (omega arith, r.sells_within);
  }

match_rows-Matches :
    (buys : List CycleRow) (m : ℕ) (sells : List CycleRow) (n : ℕ)
    → All IsFresh buys
    → All IsFresh sells
    → HeadBound buys m
    → HeadBound sells n
    → Matches buys m sells n (match_rows buys m sells n)
unfolding match_rows minimum
match_rows-Matches [] m [] n fb fs hb hs = record {
  bought = ground arith;
  sold = ground arith;
  buys_within = tt;
  sells_within = tt;
}
match_rows-Matches [] m (ask ∷ sells) n fb fs hb hs = record {
  bought = ground arith;
  sold = ground (arith, total_matched-fresh sells fs.1);
  buys_within = tt;
  sells_within = (hs, fresh-IsWithin sells fs.1);
}
match_rows-Matches (bid ∷ buys) m [] n fb fs hb hs = record {
  bought = ground (arith, total_matched-fresh buys fb.1);
  sold = ground arith;
  buys_within = (hb, fresh-IsWithin buys fb.1);
  sells_within = tt;
}
match_rows-Matches (bid ∷ buys) m (ask ∷ sells) n fb fs hb hs =
    let q = minimum (bid.amount - m) (ask.amount - n) in
    let (below, at_bid) = minimum_cases (bid.amount - m) (ask.amount - n) in
    elim (Bool-cases (m + q == bid.amount)) [
      | inl bid_full ↦ elim (Bool-cases (n + q == ask.amount)) [
        | inl ask_full ↦ rw (match_rows-both bid buys m ask sells n q refl bid_full ask_full) (
            Matches-both bid buys m ask sells n q _ (ground arith) (ground arith) (
              match_rows-Matches buys 0 sells 0 fb.1 fs.1 (HeadBound-zero buys)
                (HeadBound-zero sells)))
        | inr ask_left ↦ rw (match_rows-bid bid buys m ask sells n q refl bid_full ask_left) (
            Matches-bid bid buys m ask sells n q _ (ground arith) (ground arith) (
              match_rows-Matches buys 0 (ask ∷ sells) (n + q) fb.1 fs (HeadBound-zero buys)
                (ground arith)))
      ]
      | inr bid_left ↦ elim (Bool-cases (n + q == ask.amount)) [
        | inl ask_full ↦ rw (match_rows-ask bid buys m ask sells n q refl bid_left ask_full) (
            Matches-ask bid buys m ask sells n q _ (ground arith) (ground arith) (
              match_rows-Matches (bid ∷ buys) (m + q) sells 0 fb fs.1 (ground arith)
                (HeadBound-zero sells)))
        | inr ask_left ↦ absurd (ground arith)
      ]
    ]

total-insert :
    (f : CycleRow → ℕ) (first : CycleRow → CycleRow → Bool) (r : CycleRow) (rows : List CycleRow)
    → total f (insert first r rows) ≡ f r + total f rows
unfolding insert
total-insert f first r [] = refl
total-insert f first r (x ∷ rows) = ground (arith, total-insert f first r rows)

pub total-sort :
    (f : CycleRow → ℕ) (first : CycleRow → CycleRow → Bool) (rows : List CycleRow)
    → total f (sort first rows) ≡ total f rows
unfolding sort
total-sort f first [] = refl
total-sort f first (r ∷ rows) =
    omega (arith, total-insert f first r (sort first rows), total-sort f first rows)

-- Matching fills as much as the smaller of the two sides offers: the buys and the sells match the same
-- total, which is the smaller total of the two sides' amounts, and no row matches more than its own
-- amount.
pub match_orders_total :
    (rows : List CycleRow)
    → All IsFresh rows
    → (total_matched (match_orders rows).0
        ≡ minimum (total_amount (buys_of rows)) (total_amount (sells_of rows)))
      × (total_matched (match_orders rows).1 ≡ total_matched (match_orders rows).0)
      × All IsWithin (match_orders rows).0
      × All IsWithin (match_orders rows).1
unfolding match_orders minimum
match_orders_total rows fresh =
    let fb = All-sort better_buy IsFresh (buys_of rows) (All-filter IsFresh _ rows fresh) in
    let fs = All-sort better_sell IsFresh (sells_of rows) (All-filter IsFresh _ rows fresh) in
    let r =
      match_rows-Matches (sort better_buy (buys_of rows)) 0 (sort better_sell (sells_of rows)) 0 fb
        fs (HeadBound-zero (sort better_buy (buys_of rows)))
        (HeadBound-zero (sort better_sell (sells_of rows))) in
    let buys = total-sort (λ (x : CycleRow). x.amount) better_buy (buys_of rows) in
    let sells = total-sort (λ (x : CycleRow). x.amount) better_sell (sells_of rows) in
    (ground (arith, r.bought), omega (arith, r.bought, r.sold), r.buys_within, r.sells_within)
