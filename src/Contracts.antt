-- ===== src/Contracts.antt =====
-- src/contracts/common.ts: the shared parts of a request and the tests of its zod schemas. A schema
-- is a Boolean test on a record whose fields have their types already; unknown keys, which
-- `.strict()` refuses, have no place in a record. `z.string().url()` is zod's, and is left out.
pub mod LendingRescue
pub mod BoundedGrid
pub mod LpRebalance
pub mod YieldOptimization
pub mod Valid
mod Tests
use positioncrew.Prelude.{
  ℕ, suc, ◌+◌, ◌*◌, Bool, true, false, not, ◌&&◌, ◌||◌, Option, none, some, List, [], ◌∷◌, ltb, leb,
  ◌==◌, if◌then◌else◌, Text, codes, text_eq, length, all, any, take, drop,
}
use positioncrew.Core.Fixed.{match_decimal}

-- A timestamp that `TimestampSchema` admits: its text, and what `Date.parse` reads from it, in
-- milliseconds from 1970 on.
pub record Timestamp : Type 0 where
  pub text : Text
  pub ms : ℕ

pub data ServiceType : Type 0 where
  lending_rescue lp_rebalance yield_optimization bounded_grid : ServiceType

pub data ProviderStatus : Type 0 where
  actionable no_action refused_stale_data refused_expired : ProviderStatus
  refused_constraints refused_inconsistent_data : ProviderStatus

pub record SourceObservation : Type 0 where
  pub source_id : Text
  pub label : Text
  pub uri : Text
  pub observed_at : Timestamp

pub record AssetIdentity : Type 0 where
  pub symbol : Text
  pub address : Text
  pub decimals : ℕ

pub record PricedBalance : Type 0 where
  pub asset : AssetIdentity
  pub amount : Text
  pub price_usd : Text
  pub source_id : Text
  pub observed_at : Timestamp

-- `z.string().min(lo).max(hi)`
abbrev pub has_length : ℕ → ℕ → Text → Bool
has_length lo hi s = leb lo (length s) && leb (length s) hi

-- `z.number().int().min(lo).max(hi)`
abbrev pub in_range : ℕ → ℕ → ℕ → Bool
in_range lo hi n = leb lo n && leb n hi

abbrev pub is_hex : ℕ → Bool
is_hex c = leb b'0' c && leb c b'9' || leb b'a' c && leb c b'f' || leb b'A' c && leb c b'F'

abbrev pub is_lower_hex : ℕ → Bool
is_lower_hex c = leb b'0' c && leb c b'9' || leb b'a' c && leb c b'f'

-- `^0x[a-fA-F0-9]{40}$`
unfoldable pub is_address : Text → Bool
is_address s = text_eq (take 2 s) (codes "0x") && length (drop 2 s) == 40 && all is_hex (drop 2 s)

-- `^sha256:[a-f0-9]{64}$`
unfoldable pub is_hash : Text → Bool
is_hash s =
    text_eq (take 7 s) (codes "sha256:") && length (drop 7 s) == 64 && all is_lower_hex (drop 7 s)

-- The pattern is that of `parseFixed`.
unfoldable pub is_unsigned_decimal : Text → Bool
is_unsigned_decimal s = elim (match_decimal s) [ none ↦ false | some _ ↦ true ]

unfoldable pub is_positive_decimal : Text → Bool
unfolding is_unsigned_decimal
is_positive_decimal s = is_unsigned_decimal s && any (λ c. leb b'1' c && leb c b'9') s

unfoldable pub is_source : SourceObservation → Bool
is_source s = has_length 1 120 s.source_id && has_length 1 160 s.label

unfoldable pub is_asset_identity : AssetIdentity → Bool
unfolding is_address
is_asset_identity a = has_length 1 16 a.symbol && is_address a.address && leb a.decimals 18

unfoldable pub is_priced_balance : PricedBalance → Bool
unfolding is_asset_identity is_unsigned_decimal is_positive_decimal
is_priced_balance b =
    is_asset_identity b.asset
    && is_unsigned_decimal b.amount
    && is_positive_decimal b.price_usd
    && has_length 1 120 b.source_id

-- `BaseRequestFields`
pub record BaseRequest : Type 0 where
  pub request_id : Text
  pub chain_id : ℕ
  pub account : Text
  pub protocol : Text
  pub requested_at : Timestamp
  pub deadline : Timestamp
  pub max_data_age_seconds : ℕ
  pub max_action_usd : Text
  pub max_gas_usd : Text
  pub max_slippage_bps : ℕ
  pub sources : List SourceObservation

abbrev pub is_chain : ℕ → Bool
is_chain c = c == 56 || c == 97

-- `validateRequestWindow`
unfoldable pub is_request_window : BaseRequest → Bool
is_request_window r = ltb r.requested_at.ms r.deadline.ms

unfoldable pub is_base_request : BaseRequest → Bool
unfolding is_address is_positive_decimal is_source is_request_window
is_base_request r =
    has_length 8 120 r.request_id
    && is_chain r.chain_id
    && is_address r.account
    && has_length 1 80 r.protocol
    && in_range 15 3_600 r.max_data_age_seconds
    && is_positive_decimal r.max_action_usd
    && is_positive_decimal r.max_gas_usd
    && leb r.max_slippage_bps 2_000
    && leb 1 (length r.sources)
    && all is_source r.sources
    && is_request_window r
