-- ===== src/Analytics.antt =====
-- apps/web/src/lib/analytics.ts: the summary of the usage facts. `not_after` is the order of
-- `Array.prototype.sort` on texts. Money is whole microUSD.
pub mod Conservation
pub mod Labels
mod Tests
use relaydot.Prelude.{
  ℕ, zero, suc, ◌+◌, ◌-◌, ◌*◌, ◌/◌, String, Bool, true, false, not, ◌&&◌, ◌||◌, Option, none, some,
  List, [], ◌∷◌, ◌++◌, ltb, leb, ◌==◌, ◌=ˢ◌, if◌then◌else◌, any, select, length, order_by, ℤ, pos,
  negsuc, pos_part, neg_part, sub_ℕ, leb_ℤ, update_at,
}
use relaydot.Prices.{estimate_cost, uncached_equivalent}
use relaydot.Store.Schema.{UsageFact, ModelPrice, TokenCounts, Db}
use relaydot.Store.Catalog.{model_prices}

pub data RangeKey : Type 0 where
  past_24h seven_days thirty_days ninety_days : RangeKey

abbrev pub seconds_of : RangeKey → ℕ
seconds_of past_24h = 86400
seconds_of seven_days = 604800
seconds_of thirty_days = 2592000
seconds_of ninety_days = 7776000

abbrev pub bucket_seconds_for : RangeKey → ℕ
bucket_seconds_for past_24h = 3600
bucket_seconds_for _ = 86400

pub data Provider : Type 0 where
  claude openai : Provider

pub record Totals : Type 0 where
  pub cost : ℕ
  pub uncached : ℕ
  pub input_uncached : ℕ
  pub cache_write : ℕ
  pub cache_read : ℕ
  pub output : ℕ
  pub reasoning : ℕ
  pub events : ℕ

abbrev pub empty_totals : Totals
empty_totals = record {
  cost = 0;
  uncached = 0;
  input_uncached = 0;
  cache_write = 0;
  cache_read = 0;
  output = 0;
  reasoning = 0;
  events = 0;
}

abbrev pub add : Totals → Totals → Totals
add into from = record {
  cost = into.cost + from.cost;
  uncached = into.uncached + from.uncached;
  input_uncached = into.input_uncached + from.input_uncached;
  cache_write = into.cache_write + from.cache_write;
  cache_read = into.cache_read + from.cache_read;
  output = into.output + from.output;
  reasoning = into.reasoning + from.reasoning;
  events = into.events + from.events;
}

abbrev pub processed_tokens : Totals → ℕ
processed_tokens t = t.input_uncached + t.cache_write + t.cache_read + t.output

pub record Slot : Type 0 where
  pub cost : ℕ
  pub tokens : ℕ

pub record Bucket : Type 0 where
  pub start : ℤ
  pub claude_slot : Slot
  pub openai_slot : Slot

pub record ModelRow : Type 0 where
  pub model_id : String
  pub provider : Provider
  pub cost : ℕ
  pub tokens : ℕ
  pub is_priced : Bool

pub record UsageSummary : Type 0 where
  pub range : RangeKey
  pub from : ℤ
  pub to : ℤ
  pub bucket_seconds : ℕ
  pub totals : Totals
  pub claude_totals : Totals
  pub openai_totals : Totals
  pub buckets : List Bucket
  pub models : List ModelRow
  pub active_buckets : ℕ
  pub unpriced_models : List String

abbrev pub provider_of : String → Provider
provider_of raw = if raw =ˢ "openai" then openai else claude

-- `prices.get(id)`: the map keeps the last row of an identifier.
abbrev pub price_of : String → List ModelPrice → Option ModelPrice
price_of id [] = none
price_of id (p ∷ ps) = elim (price_of id ps) [
  | some q ↦ some q
  | none ↦ if p.model_id =ˢ id then some p else none
]

abbrev cost_at : TokenCounts → Option ModelPrice → ℕ
cost_at t none = 0
cost_at t (some p) = estimate_cost t p.rates

abbrev uncached_at : TokenCounts → Option ModelPrice → ℕ
uncached_at t none = 0
uncached_at t (some p) = uncached_equivalent t p.rates

abbrev writes_of : TokenCounts → ℕ
writes_of t = t.cache_write_5m + t.cache_write_1h + t.cache_write_other

pub contribution : Option ModelPrice → UsageFact → Totals
contribution price row = record {
  cost = cost_at row.tokens price;
  uncached = uncached_at row.tokens price;
  input_uncached = row.tokens.input_uncached;
  cache_write = writes_of row.tokens;
  cache_read = row.tokens.cache_read;
  output = row.tokens.output;
  reasoning = row.reasoning_output;
  events = 1;
}

-- a - b.
abbrev pub sub_ℤ : ℤ → ℤ → ℤ
sub_ℤ a b = sub_ℕ (pos_part a + neg_part b) (pos_part b + neg_part a)

-- `index`, with `none` below zero.
abbrev pub index_of : ℕ → ℤ → Option ℕ
index_of bucket_seconds (pos n) = some (n / bucket_seconds)
index_of bucket_seconds (negsuc n) = none

abbrev add_slot : ℕ → ℕ → Slot → Slot
add_slot cost tokens s = record { cost = s.cost + cost; tokens = s.tokens + tokens }

abbrev pub add_bucket : Totals → Provider → Bucket → Bucket
add_bucket c claude b = record b {
  claude_slot = add_slot c.cost (processed_tokens c) b.claude_slot;
}
add_bucket c openai b = record b {
  openai_slot = add_slot c.cost (processed_tokens c) b.openai_slot;
}

-- `update_at` writes nothing at `buckets.length` and above.
abbrev pub add_at : Totals → Provider → List Bucket → Option ℕ → List Bucket
add_at c provider buckets none = buckets
add_at c provider buckets (some index) = update_at index (add_bucket c provider) buckets

-- An entry of `byModel`: a new one at the end, an old one added to.
abbrev pub add_model : String → Totals → Provider → Bool → List ModelRow → List ModelRow
add_model id c provider is_priced [] =
    record {
      model_id = id;
      provider = provider;
      cost = c.cost;
      tokens = processed_tokens c;
      is_priced = is_priced;
    }
    ∷ []
add_model id c provider is_priced (m ∷ ms) =
    if m.model_id =ˢ id
    then record m { cost = m.cost + c.cost; tokens = m.tokens + processed_tokens c } ∷ ms
    else m ∷ add_model id c provider is_priced ms

-- What the loop over the rows writes.
pub record Sums : Type 0 where
  pub totals : Totals
  pub claude_totals : Totals
  pub openai_totals : Totals
  pub buckets : List Bucket
  pub models : List ModelRow
  pub unpriced : List String

abbrev add_provider : Totals → Provider → Sums → Sums
add_provider c claude s = record s { claude_totals = add s.claude_totals c }
add_provider c openai s = record s { openai_totals = add s.openai_totals c }

abbrev pub is_priced_by : Option ModelPrice → Bool
is_priced_by none = false
is_priced_by (some p) = true

abbrev add_unpriced : String → List String → Option ModelPrice → List String
add_unpriced id set (some p) = set
add_unpriced id set none = if any (λ t. t =ˢ id) set then set else set ++ id ∷ []

-- The body of the loop, from its lookup of the price.
unfoldable pub add_row : ℤ → ℕ → UsageFact → Option ModelPrice → Sums → Sums
add_row from bucket_seconds row price s =
    let c = contribution price row in
    let provider = provider_of row.provider in
    add_provider c provider (record s {
      totals = add s.totals c;
      buckets = add_at c provider s.buckets (index_of bucket_seconds (sub_ℤ row.occurred_at from));
      models = add_model row.model_id c provider (is_priced_by price) s.models;
      unpriced = add_unpriced row.model_id s.unpriced price;
    })

unfoldable pub add_rows : ℤ → ℕ → List ModelPrice → List UsageFact → Sums → Sums
add_rows from bucket_seconds prices [] s = s
add_rows from bucket_seconds prices (row ∷ rows) s =
    add_rows from bucket_seconds prices rows
      (add_row from bucket_seconds row (price_of row.model_id prices) s)

abbrev no_slot : Slot
no_slot = record { cost = 0; tokens = 0 }

-- `Array.from({ length: n }, …)` from a start.
abbrev pub empty_buckets : ℤ → ℕ → ℕ → List Bucket
empty_buckets start bucket_seconds zero = []
empty_buckets start bucket_seconds (suc n) =
    record { start = start; claude_slot = no_slot; openai_slot = no_slot }
    ∷ empty_buckets (sub_ℕ (pos_part start + bucket_seconds) (neg_part start)) bucket_seconds n

abbrev pub bucket_count : RangeKey → ℕ
bucket_count range =
    let n = (2 * seconds_of range + bucket_seconds_for range) / (2 * bucket_seconds_for range) in
    if ltb n 1 then 1 else n

abbrev pub to_of : RangeKey → ℕ → ℕ
to_of range now =
    (now + bucket_seconds_for range - 1) / bucket_seconds_for range * bucket_seconds_for range

abbrev pub from_of : RangeKey → ℕ → ℤ
from_of range now = sub_ℕ (to_of range now) (seconds_of range)

-- `occurred_at >= from AND occurred_at < to`.
abbrev pub in_window : ℤ → ℤ → UsageFact → Bool
in_window from to f = leb_ℤ from f.occurred_at && not (leb_ℤ to f.occurred_at)

abbrev pub rows_in : ℤ → ℤ → Db → List UsageFact
rows_in from to db =
    order_by (λ a b. leb_ℤ a.occurred_at b.occurred_at) (select (in_window from to) db.facts)

abbrev pub dearer : ModelRow → ModelRow → Bool
dearer a b = ltb b.cost a.cost || a.cost == b.cost && leb b.tokens a.tokens

abbrev is_active : Bucket → Bool
is_active b = ltb 0 b.claude_slot.tokens || ltb 0 b.openai_slot.tokens

abbrev pub no_sums : RangeKey → ℕ → Sums
no_sums range now = record {
  totals = empty_totals;
  claude_totals = empty_totals;
  openai_totals = empty_totals;
  buckets = empty_buckets (from_of range now) (bucket_seconds_for range) (bucket_count range);
  models = [];
  unpriced = [];
}

abbrev pub sums_of : RangeKey → ℕ → Db → Sums
sums_of range now db =
    add_rows (from_of range now) (bucket_seconds_for range) (model_prices db)
      (rows_in (from_of range now) (pos (to_of range now)) db) (no_sums range now)

unfoldable pub summarize_usage : (String → String → Bool) → RangeKey → ℕ → Db → UsageSummary
summarize_usage not_after range now db =
    let s = sums_of range now db in
    record {
      range = range;
      from = from_of range now;
      to = pos (to_of range now);
      bucket_seconds = bucket_seconds_for range;
      totals = s.totals;
      claude_totals = s.claude_totals;
      openai_totals = s.openai_totals;
      buckets = s.buckets;
      models = order_by dearer s.models;
      active_buckets = length (select is_active s.buckets);
      unpriced_models = order_by not_after s.unpriced;
    }
