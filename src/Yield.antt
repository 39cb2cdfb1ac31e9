-- ===== src/Yield.antt =====
-- src/providers/yield-optimization.ts: the positions as they are read, and the checks of a portfolio.
-- A position's decimals are read once, before the code that uses them: the schema of the request
-- admits no text on which that throws.
pub mod Plan
pub mod Keys
pub mod Loop
pub mod Draws
pub mod Repair
pub mod Funding
pub mod Sums
pub mod Accounts
pub mod Sourced
pub mod Sources
pub mod Provider
pub mod Greedy
pub mod Sets
pub mod Apart
pub mod Best
pub mod Held
pub mod Portfolio
pub mod Rate
pub mod Eligible
pub mod Candidates
pub mod Answer
pub mod Actionable
pub mod Choice
pub mod Samples
mod Tests
use positioncrew.Prelude.{
  ℕ, ◌+◌, ◌*◌, ◌/◌, Bool, true, false, not, ◌||◌, ◌&&◌, Option, none, some, List, [], ◌∷◌, ◌++◌,
  map, ltb, ◌==◌, any, if◌then◌else◌, Text, codes, text_eq, to_lower_case, trim, value_or,
}
use positioncrew.Prelude.Throws.{◌>>=◌, each}
use positioncrew.Prelude.Dict.{Dict, lookup, insert}
use positioncrew.Core.Fixed.{parse_fixed, minimum, to_string}
use positioncrew.Contracts.YieldOptimization.{YieldPosition, YieldOptimizationRequest}

-- A position with its decimals read.
pub record Holding : Type 0 where
  pub position : YieldPosition
  pub open position use {opportunity_id, gross_apy_bps, lockup_seconds, risk_tier}
  pub amount : ℕ
  pub liquidity : ℕ
  pub entry_cost : ℕ
  pub exit_cost : ℕ

unfoldable pub read_position : YieldPosition → Option Holding
read_position p = do
  amount ← parse_fixed p.amount_usd
  liquidity ← parse_fixed p.liquidity_usd
  entry_cost ← parse_fixed p.estimated_entry_cost_usd
  exit_cost ← parse_fixed p.estimated_exit_cost_usd
  some (record {
    position = p;
    amount = amount;
    liquidity = liquidity;
    entry_cost = entry_cost;
    exit_cost = exit_cost;
  })

-- The numbers of the request.
pub record YieldLimits : Type 0 where
  pub capital : ℕ
  pub max_action : ℕ
  pub max_gas : ℕ
  pub max_allocation : ℕ
  pub max_execution_cost : ℕ
  pub minimum_liquidity : ℕ
  pub minimum_net_benefit : ℕ

unfoldable pub read_limits : YieldOptimizationRequest → Option YieldLimits
read_limits r = do
  capital ← parse_fixed r.capital_usd
  max_action ← parse_fixed r.max_action_usd
  max_gas ← parse_fixed r.max_gas_usd
  max_allocation ← parse_fixed (value_or r.max_action_usd r.max_allocation_usd)
  max_execution_cost ← parse_fixed (value_or r.max_action_usd r.max_execution_cost_usd)
  minimum_liquidity ← parse_fixed r.constraints.minimum_liquidity_usd
  minimum_net_benefit ← parse_fixed r.constraints.minimum_net_benefit_usd
  some (record {
    capital = capital;
    max_action = max_action;
    max_gas = max_gas;
    max_allocation = max_allocation;
    max_execution_cost = max_execution_cost;
    minimum_liquidity = minimum_liquidity;
    minimum_net_benefit = minimum_net_benefit;
  })

unfoldable pub protocol_key : Text → Text
protocol_key protocol = to_lower_case (trim protocol)

unfoldable pub asset_key : Holding → Text
unfolding to_string
asset_key h =
    to_lower_case h.position.asset.address ++ codes ":" ++ to_string h.position.asset.decimals

abbrev pub protocol_of : Holding → Text
protocol_of h = protocol_key h.position.protocol

abbrev pub market_of : Holding → Text
market_of h = to_lower_case h.position.vault_or_market

unfoldable pub available_withdrawal : Holding → ℕ
unfolding minimum
available_withdrawal h = minimum h.amount h.liquidity

-- `reduce` with `+`.
abbrev pub sum_of : (Holding → ℕ) → List Holding → ℕ
sum_of f [] = 0
sum_of f (h ∷ hs) = f h + sum_of f hs

unfoldable pub current_weighted_apy : List Holding → ℕ
current_weighted_apy positions =
    let total = sum_of (λ (h : Holding). h.amount) positions in
    let weighted = sum_of (λ (h : Holding). h.amount * h.gross_apy_bps) positions in
    if total == 0 then 0 else weighted / total

pub data PortfolioIssue : Type 0 where
  above_capital duplicate_identifier market_conflict identity_conflict duplicate_market :
      PortfolioIssue

abbrev pub issue_if : Bool → PortfolioIssue → List PortfolioIssue
issue_if true issue = issue ∷ []
issue_if false issue = []

-- Whether a text comes twice: the size of its `Set` is another.
unfoldable pub has_duplicate : List Text → Bool
has_duplicate [] = false
has_duplicate (t ∷ ts) = any (text_eq t) ts || has_duplicate ts

-- `map.has(key) && map.get(key) !== value`
abbrev pub conflicts_with : Text → Option Text → Bool
conflicts_with value none = false
conflicts_with value (some old) = not (text_eq old value)

unfoldable pub conflicts : Dict Text → Dict Text → List Holding → List PortfolioIssue
conflicts markets identities [] = []
conflicts markets identities (h ∷ hs) =
    let market = market_of h in
    let identity = protocol_of h ++ codes ":" ++ asset_key h in
    let whole = market ++ codes ":" ++ identity in
    issue_if (conflicts_with identity (lookup market markets)) market_conflict
    ++ issue_if (conflicts_with whole (lookup h.opportunity_id identities)) identity_conflict
    ++ conflicts (insert market identity markets) (insert h.opportunity_id whole identities) hs

-- Each position whose market comes before it in the list.
unfoldable pub duplicate_markets : List Text → List Holding → List PortfolioIssue
duplicate_markets held [] = []
duplicate_markets held (h ∷ hs) =
    issue_if (any (text_eq (market_of h)) held) duplicate_market
    ++ duplicate_markets (market_of h ∷ held) hs

unfoldable pub portfolio_input_issues : ℕ → List Holding → List Holding → List PortfolioIssue
portfolio_input_issues capital positions opportunities =
    issue_if (ltb capital (sum_of (λ (h : Holding). h.amount) positions)) above_capital
    ++ issue_if (has_duplicate (map (λ (h : Holding). h.opportunity_id) positions))
        duplicate_identifier
    ++ issue_if (has_duplicate (map (λ (h : Holding). h.opportunity_id) opportunities))
        duplicate_identifier
    ++ conflicts [] [] (positions ++ opportunities)
    ++ duplicate_markets [] positions
