-- ===== src/Yield/Portfolio.antt =====
-- Portfolios without issues.
use positioncrew.Prelude.{
  ℕ, ◌≤◌, ◌≡◌, ◌≢◌, refl, sym, ◌∙◌, Bool, true, false, Option, none, some, List, [], ◌∷◌, ◌++◌, map,
  any, arith, ltb, All, All-imp, inl, inr, Bool-cases, Text, text_eq, text_eq_iff, codes, some_inj,
  append-nil,
}
use positioncrew.Prelude.Dict.{Dict, lookup, insert, lookup-insert_self, lookup-insert_ne}
use positioncrew.Yield.Draws.{Distinct}
use positioncrew.Yield.{
  Holding, PortfolioIssue, issue_if, has_duplicate, conflicts_with, conflicts, duplicate_markets,
  portfolio_input_issues, sum_of, protocol_of, asset_key, market_of,
}

-- What the checks compare: the protocol with the asset, and the market with both.
abbrev pub identity_of : Holding → Text
identity_of h = protocol_of h ++ codes ":" ++ asset_key h

abbrev pub whole_identity : Holding → Text
whole_identity h = market_of h ++ codes ":" ++ identity_of h

-- Two positions of one market or one identifier are of one protocol and asset.
abbrev pub Agree : Holding → Holding → Type 0
Agree h k =
    (market_of h ≡ market_of k → identity_of h ≡ identity_of k)
    × (h.opportunity_id ≡ k.opportunity_id → whole_identity h ≡ whole_identity k)

abbrev pub IsConsistent : List Holding → Type 0
IsConsistent [] = Unit
IsConsistent (h ∷ hs) = All (Agree h) hs × IsConsistent hs

issue_if-nil : (b : Bool) (i : PortfolioIssue) → issue_if b i ≡ [] → b ≡ false
issue_if-nil true i h = absurd cc
issue_if-nil false i h = refl

conflicts_with-some :
    (value : Text) (o : Option Text) (old : Text)
    → conflicts_with value o ≡ false
    → o ≡ some old
    → old ≡ value
conflicts_with-some value none old h e = absurd cc
conflicts_with-some value (some v) old h e =
    let same = (text_eq_iff v value).0 (ground arith) in sym (some_inj e) ∙ same

-- What the maps hold of the keys of the positions to come.
abbrev Follows : (Holding → Text) → (Holding → Text) → Dict Text → List Holding → Type 0
Follows key value d hs =
    All (λ (h : Holding). (v : Text) → lookup (key h) d ≡ some v → v ≡ value h) hs

Follows-insert :
    (key value : Holding → Text) (d : Dict Text) (h : Holding) (hs : List Holding)
    → ((v : Text) → lookup (key h) d ≡ some v → v ≡ value h)
    → Follows key value (insert (key h) (value h) d) hs
    → Follows key value d hs × All (λ (k : Holding). key h ≡ key k → value h ≡ value k) hs
Follows-insert key value d h [] head f = (tt, tt)
Follows-insert key value d h (k ∷ hs) head f =
    let (rest, agree) = Follows-insert key value d h hs head f.1 in
    let equal : key h ≡ key k → value h ≡ value k =
      λ e. f.0 (value h) (rw (sym e) (lookup-insert_self (key h) (value h) d)) in
    (
      (
        λ v found. elim (Bool-cases (text_eq (key h) (key k))) [
          | inl same ↦ let e = (text_eq_iff (key h) (key k)).0 same in head v (rw e found) ∙ equal e
          | inr other ↦ f.0 v (
              lookup-insert_ne (key k) (key h) (value h) d
                (λ e. ground (arith, text_eq_iff (key h) (key k)))
              ∙ found)
        ],
        rest,
      ),
      (equal, agree),
    )

conflicts-nil :
    (markets identities : Dict Text) (hs : List Holding)
    → conflicts markets identities hs ≡ []
    → Follows (λ h. market_of h) identity_of markets hs
      × Follows (λ h. h.opportunity_id) whole_identity identities hs
      × IsConsistent hs
unfolding conflicts
conflicts-nil markets identities [] e = (tt, tt, tt)
conflicts-nil markets identities (h ∷ hs) e =
    let market_test = conflicts_with (identity_of h) (lookup (market_of h) markets) in
    let identity_test = conflicts_with (whole_identity h) (lookup h.opportunity_id identities) in
    let (firsts, rest) =
      (append-nil
          (issue_if market_test PortfolioIssue.market_conflict
            ++ issue_if identity_test PortfolioIssue.identity_conflict)
          _).0
        e in
    let (first, second) =
      (append-nil (issue_if market_test PortfolioIssue.market_conflict)
          (issue_if identity_test PortfolioIssue.identity_conflict)).0
        firsts in
    let (by_market, by_id, consistent) =
      conflicts-nil (insert (market_of h) (identity_of h) markets)
        (insert h.opportunity_id (whole_identity h) identities) hs rest in
    let head_market : (v : Text) → lookup (market_of h) markets ≡ some v → v ≡ identity_of h =
      λ v found.
        conflicts_with-some (identity_of h) (lookup (market_of h) markets) v
          (issue_if-nil market_test PortfolioIssue.market_conflict first) found in
    let head_id : (v : Text) → lookup h.opportunity_id identities ≡ some v → v ≡ whole_identity h =
      λ v found.
        conflicts_with-some (whole_identity h) (lookup h.opportunity_id identities) v
          (issue_if-nil identity_test PortfolioIssue.identity_conflict second) found in
    let (markets_follow, agree) =
      Follows-insert (λ h. market_of h) identity_of markets h hs head_market by_market in
    let (ids_follow, agree') =
      Follows-insert (λ h. h.opportunity_id) whole_identity identities h hs head_id by_id in
    ((head_market, markets_follow), (head_id, ids_follow), (both h hs agree agree', consistent))
  where
    both :
        (h : Holding) (hs : List Holding)
        → All (λ (k : Holding). market_of h ≡ market_of k → identity_of h ≡ identity_of k) hs
        → All
            (λ (k : Holding).
              h.opportunity_id ≡ k.opportunity_id → whole_identity h ≡ whole_identity k)
            hs
        → All (Agree h) hs
    both h [] a b = tt
    both h (k ∷ hs) a b = ((a.0, b.0), both h hs a.1 b.1)

-- The markets of positions without a duplicate differ from those before them and from one another.
duplicate_markets-nil :
    (held : List Text) (hs : List Holding)
    → duplicate_markets held hs ≡ []
    → All (λ (h : Holding). any (text_eq (market_of h)) held ≡ false) hs
      × Distinct (λ (h : Holding). market_of h) hs
unfolding duplicate_markets
duplicate_markets-nil held [] e = (tt, tt)
duplicate_markets-nil held (h ∷ hs) e =
    let (first, rest) =
      (append-nil (issue_if (any (text_eq (market_of h)) held) PortfolioIssue.duplicate_market)
          (duplicate_markets (market_of h ∷ held) hs)).0
        e in
    let (apart, distinct) = duplicate_markets-nil (market_of h ∷ held) hs rest in
    (
      (
        issue_if-nil (any (text_eq (market_of h)) held) PortfolioIssue.duplicate_market first,
        All-imp (λ (k : Holding). any (text_eq (market_of k)) (market_of h ∷ held) ≡ false)
            (λ (k : Holding). any (text_eq (market_of k)) held ≡ false) hs (λ k e. ground arith)
            apart,
      ),
      (
        All-imp (λ (k : Holding). any (text_eq (market_of k)) (market_of h ∷ held) ≡ false)
            (λ (k : Holding). market_of h ≢ market_of k) hs
            (λ k e same. ground (arith, text_eq_iff (market_of k) (market_of h))) apart,
        distinct,
      ),
    )

-- A portfolio without issues holds no more than the capital, no identifier comes twice among the current
-- positions nor among the opportunities, no market comes twice among the current positions, and positions
-- of one market or of one identifier agree on the protocol, the asset and the market.
pub portfolio_input_issues-nil :
    (capital : ℕ) (positions opportunities : List Holding)
    → portfolio_input_issues capital positions opportunities ≡ []
    → (sum_of (λ (h : Holding). h.amount) positions ≤ capital)
      × (has_duplicate (map (λ (h : Holding). h.opportunity_id) positions) ≡ false)
      × (has_duplicate (map (λ (h : Holding). h.opportunity_id) opportunities) ≡ false)
      × Distinct (λ (h : Holding). market_of h) positions
      × IsConsistent (positions ++ opportunities)
unfolding portfolio_input_issues
portfolio_input_issues-nil capital positions opportunities e =
    let over = ltb capital (sum_of (λ (h : Holding). h.amount) positions) in
    let twice = has_duplicate (map (λ (h : Holding). h.opportunity_id) positions) in
    let twice' = has_duplicate (map (λ (h : Holding). h.opportunity_id) opportunities) in
    let a = issue_if over PortfolioIssue.above_capital in
    let b = issue_if twice PortfolioIssue.duplicate_identifier in
    let c = issue_if twice' PortfolioIssue.duplicate_identifier in
    let d = conflicts [] [] (positions ++ opportunities) in
    let (abcd, last) = (append-nil (a ++ b ++ c ++ d) (duplicate_markets [] positions)).0 e in
    let (abc, no_conflict) = (append-nil (a ++ b ++ c) d).0 abcd in
    let (ab, none_c) = (append-nil (a ++ b) c).0 abc in
    let (none_a, none_b) = (append-nil a b).0 ab in
    let (_, _, consistent) = conflicts-nil [] [] (positions ++ opportunities) no_conflict in
    let (_, distinct) = duplicate_markets-nil [] positions last in
    let below = issue_if-nil over PortfolioIssue.above_capital none_a in
    (
      ground arith,
      issue_if-nil twice PortfolioIssue.duplicate_identifier none_b,
      issue_if-nil twice' PortfolioIssue.duplicate_identifier none_c,
      distinct,
      consistent,
    )
