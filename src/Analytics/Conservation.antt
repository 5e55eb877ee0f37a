-- ===== src/Analytics/Conservation.antt =====
-- apps/web/src/lib/analytics.ts: grouping never changes a total.
use relaydot.Prelude.{
  ℕ, zero, suc, ◌+◌, ◌-◌, ◌/◌, ◌<◌, String, Bool, true, false, Option, some, List, [], ◌∷◌, ◌≡◌,
  refl, ap, ℤ, pos, All, All-order_by, select-All, select, length, sum_by, sum_by-update_at,
  sum_by-order_by, length-update_at, leb_ℤ, arith, sub_ℕ, pos_part, neg_part, update_at, All-map,
  ◌∙◌,
}
use relaydot.Store.Schema.{UsageFact, ModelPrice, Db}
use relaydot.Store.Catalog.{model_prices}
use relaydot.Analytics.{
  RangeKey, past_24h, seven_days, thirty_days, ninety_days, Totals, Sums, Bucket, ModelRow,
  Provider, claude, openai, processed_tokens, contribution, provider_of, add_bucket, add_model,
  add_row, add_rows, empty_buckets, sums_of, no_sums, rows_in, in_window, from_of, to_of, index_of,
  sub_ℤ, is_priced_by, bucket_count, bucket_seconds_for, seconds_of, dearer, summarize_usage,
  price_of,
}

abbrev cost_in : Bucket → ℕ
cost_in b = b.claude_slot.cost + b.openai_slot.cost

abbrev tokens_in : Bucket → ℕ
tokens_in b = b.claude_slot.tokens + b.openai_slot.tokens

abbrev cost_on : ModelRow → ℕ
cost_on m = m.cost

abbrev tokens_on : ModelRow → ℕ
tokens_on m = m.tokens

-- The three groupings of a sum that the loop keeps.
abbrev ByProvider : Sums → Type 0
ByProvider s =
    (s.claude_totals.cost + s.openai_totals.cost ≡ s.totals.cost)
    × (processed_tokens s.claude_totals + processed_tokens s.openai_totals
        ≡ processed_tokens s.totals)
    × (s.claude_totals.events + s.openai_totals.events ≡ s.totals.events)

abbrev ByModel : Sums → Type 0
ByModel s =
    (sum_by cost_on s.models ≡ s.totals.cost)
    × (sum_by tokens_on s.models ≡ processed_tokens s.totals)

abbrev ByBucket : Sums → Type 0
ByBucket s =
    (sum_by cost_in s.buckets ≡ s.totals.cost)
    × (sum_by tokens_in s.buckets ≡ processed_tokens s.totals)

add_row-ByProvider :
    (from : ℤ) (bucket_seconds : ℕ) (row : UsageFact) (price : Option ModelPrice) (s : Sums)
    → ByProvider s
    → ByProvider (add_row from bucket_seconds row price s)
unfolding add_row
add_row-ByProvider from bucket_seconds row price s (a, b, c) =
    (ground arith, ground arith, ground arith)

add_model-sum :
    (id : String) (c : Totals) (provider : Provider) (is_priced : Bool) (ms : List ModelRow)
    → (sum_by cost_on (add_model id c provider is_priced ms) ≡ sum_by cost_on ms + c.cost)
      × (sum_by tokens_on (add_model id c provider is_priced ms)
          ≡ sum_by tokens_on ms + processed_tokens c)
add_model-sum id c provider is_priced [] = (omega arith, omega arith)
add_model-sum id c provider is_priced (m ∷ ms) =
    let (costs, tokens) = add_model-sum id c provider is_priced ms in
    (ground (arith, costs), ground (arith, tokens))

add_row-ByModel :
    (from : ℤ) (bucket_seconds : ℕ) (row : UsageFact) (price : Option ModelPrice) (s : Sums)
    → ByModel s
    → ByModel (add_row from bucket_seconds row price s)
unfolding add_row
add_row-ByModel from bucket_seconds row price s (a, b) =
    let (costs, tokens) =
      add_model-sum row.model_id (contribution price row) (provider_of row.provider)
        (is_priced_by price) s.models in
    (ground (arith, costs), ground (arith, tokens))

add_at-sum :
    (c : Totals) (provider : Provider) (buckets : List Bucket) (i : ℕ)
    → i < length buckets
    → (sum_by cost_in (update_at i (add_bucket c provider) buckets)
        ≡ sum_by cost_in buckets + c.cost)
      × (sum_by tokens_in (update_at i (add_bucket c provider) buckets)
          ≡ sum_by tokens_in buckets + processed_tokens c)
add_at-sum c claude buckets i h = (
  sum_by-update_at cost_in c.cost i (add_bucket c claude) buckets (λ b. omega arith) (omega arith),
  sum_by-update_at tokens_in (processed_tokens c) i (add_bucket c claude) buckets (λ b. omega arith)
      (omega arith),
)
add_at-sum c openai buckets i h = (
  sum_by-update_at cost_in c.cost i (add_bucket c openai) buckets (λ b. omega arith) (omega arith),
  sum_by-update_at tokens_in (processed_tokens c) i (add_bucket c openai) buckets (λ b. omega arith)
      (omega arith),
)

-- A row falls into one of the first `n` buckets.
abbrev HasBucket : ℤ → ℕ → ℕ → UsageFact → Type 0
HasBucket from bucket_seconds n row =
    (i : ℕ) × (index_of bucket_seconds (sub_ℤ row.occurred_at from) ≡ some i) × (i < n)

add_row-ByBucket :
    (from : ℤ) (bucket_seconds : ℕ) (row : UsageFact) (price : Option ModelPrice) (s : Sums)
    → HasBucket from bucket_seconds (length s.buckets) row
    → ByBucket s
    → ByBucket (add_row from bucket_seconds row price s)
      × (length (add_row from bucket_seconds row price s).buckets ≡ length s.buckets)
unfolding add_row
add_row-ByBucket from bucket_seconds row price s (i, e, h) (a, b) =
    let provider = provider_of row.provider in
    let (costs, tokens) = add_at-sum (contribution price row) provider s.buckets i h in
    let kept = length-update_at i (add_bucket (contribution price row) provider) s.buckets in
    ((ground (arith, costs), ground (arith, tokens)), ground (arith, kept))

add_rows-ByProvider :
    (from : ℤ) (bucket_seconds : ℕ) (prices : List ModelPrice) (rows : List UsageFact) (s : Sums)
    → ByProvider s
    → ByProvider (add_rows from bucket_seconds prices rows s)
unfolding add_rows
add_rows-ByProvider from bucket_seconds prices [] s h = h
add_rows-ByProvider from bucket_seconds prices (row ∷ rows) s h =
    let price = price_of row.model_id prices in
    add_rows-ByProvider from bucket_seconds prices rows (add_row from bucket_seconds row price s)
      (add_row-ByProvider from bucket_seconds row price s h)

add_rows-ByModel :
    (from : ℤ) (bucket_seconds : ℕ) (prices : List ModelPrice) (rows : List UsageFact) (s : Sums)
    → ByModel s
    → ByModel (add_rows from bucket_seconds prices rows s)
unfolding add_rows
add_rows-ByModel from bucket_seconds prices [] s h = h
add_rows-ByModel from bucket_seconds prices (row ∷ rows) s h =
    let price = price_of row.model_id prices in
    add_rows-ByModel from bucket_seconds prices rows (add_row from bucket_seconds row price s)
      (add_row-ByModel from bucket_seconds row price s h)

add_rows-ByBucket :
    (from : ℤ) (bucket_seconds n : ℕ) (prices : List ModelPrice) (rows : List UsageFact) (s : Sums)
    → All (HasBucket from bucket_seconds n) rows
    → length s.buckets ≡ n
    → ByBucket s
    → ByBucket (add_rows from bucket_seconds prices rows s)
unfolding add_rows
add_rows-ByBucket from bucket_seconds n prices [] s rs l h = h
add_rows-ByBucket from bucket_seconds n prices (row ∷ rows) s ((i, e, k), rs) l h =
    let price = price_of row.model_id prices in
    let (next, same) = add_row-ByBucket from bucket_seconds row price s (i, e, omega arith) h in
    add_rows-ByBucket from bucket_seconds n prices rows (add_row from bucket_seconds row price s) rs
      (omega arith) next

empty_buckets-sum :
    (start : ℤ) (bucket_seconds n : ℕ)
    → (sum_by cost_in (empty_buckets start bucket_seconds n) ≡ 0)
      × (sum_by tokens_in (empty_buckets start bucket_seconds n) ≡ 0)
      × (length (empty_buckets start bucket_seconds n) ≡ n)
empty_buckets-sum start bucket_seconds zero = (refl, refl, refl)
empty_buckets-sum start bucket_seconds (suc n) =
    let (costs, tokens, l) =
      empty_buckets-sum (sub_ℕ (pos_part start + bucket_seconds) (neg_part start)) bucket_seconds
        n in
    (omega arith, omega arith, omega arith)

-- The window is as long as its buckets together.
window-offset :
    (to seconds : ℕ) (at : ℤ)
    → leb_ℤ (sub_ℕ to seconds) at ≡ true
    → leb_ℤ (pos to) at ≡ false
    → (d : ℕ) × (sub_ℤ at (sub_ℕ to seconds) ≡ pos d) × (d < seconds)
window-offset to seconds at h k =
    let from = sub_ℕ to seconds in
    (pos_part at + neg_part from - (pos_part from + neg_part at), ground arith, ground arith)

quotient-lt :
    (range : RangeKey) (d : ℕ)
    → d < seconds_of range
    → d / bucket_seconds_for range < bucket_count range
quotient-lt past_24h d h = omega arith
quotient-lt seven_days d h = omega arith
quotient-lt thirty_days d h = omega arith
quotient-lt ninety_days d h = omega arith

in_window-HasBucket :
    (range : RangeKey) (now : ℕ) (row : UsageFact)
    → in_window (from_of range now) (pos (to_of range now)) row ≡ true
    → HasBucket (from_of range now) (bucket_seconds_for range) (bucket_count range) row
in_window-HasBucket range now row h =
    let (d, e, k) =
      window-offset (to_of range now) (seconds_of range) row.occurred_at (ground arith)
        (ground arith) in
    (
      d / bucket_seconds_for range,
      ap (index_of (bucket_seconds_for range)) e,
      quotient-lt range d k,
    )

in_rows-HasBucket :
    (range : RangeKey) (now : ℕ) (db : Db)
    → All
        (HasBucket (from_of range now) (bucket_seconds_for range) (bucket_count range))
        (rows_in (from_of range now) (pos (to_of range now)) db)
in_rows-HasBucket range now db =
    let within = in_window (from_of range now) (pos (to_of range now)) in
    All-order_by (HasBucket (from_of range now) (bucket_seconds_for range) (bucket_count range))
      (λ a b. leb_ℤ a.occurred_at b.occurred_at) (select within db.facts)
      (All-map (λ row. within row ≡ true)
        (HasBucket (from_of range now) (bucket_seconds_for range) (bucket_count range))
        (select within db.facts) (in_window-HasBucket range now) (select-All within db.facts))

summarize_usage-providers :
    (not_after : String → String → Bool) (range : RangeKey) (now : ℕ) (db : Db)
    → let s = summarize_usage not_after range now db in
      (s.claude_totals.cost + s.openai_totals.cost ≡ s.totals.cost)
      × (processed_tokens s.claude_totals + processed_tokens s.openai_totals
          ≡ processed_tokens s.totals)
      × (s.claude_totals.events + s.openai_totals.events ≡ s.totals.events)
unfolding summarize_usage
summarize_usage-providers not_after range now db =
    add_rows-ByProvider (from_of range now) (bucket_seconds_for range) (model_prices db)
      (rows_in (from_of range now) (pos (to_of range now)) db) (no_sums range now)
      (refl, refl, refl)

summarize_usage-models :
    (not_after : String → String → Bool) (range : RangeKey) (now : ℕ) (db : Db)
    → let s = summarize_usage not_after range now db in
      (sum_by (λ m. m.cost) s.models ≡ s.totals.cost)
      × (sum_by (λ m. m.tokens) s.models ≡ processed_tokens s.totals)
unfolding summarize_usage
summarize_usage-models not_after range now db =
    let (costs, tokens) =
      add_rows-ByModel (from_of range now) (bucket_seconds_for range) (model_prices db)
        (rows_in (from_of range now) (pos (to_of range now)) db) (no_sums range now) (refl, refl) in
    let models = (sums_of range now db).models in
    (
      sum_by-order_by cost_on dearer models ∙ costs,
      sum_by-order_by tokens_on dearer models ∙ tokens,
    )

-- In every summary, the totals of the two providers add up to the totals, in cost, in processed tokens
-- and in events, and so do the rows of the models, in cost and in processed tokens.
pub summarize_usage-shares :
    (not_after : String → String → Bool) (range : RangeKey) (now : ℕ) (db : Db)
    → let s = summarize_usage not_after range now db in
      (s.claude_totals.cost + s.openai_totals.cost ≡ s.totals.cost)
      × (processed_tokens s.claude_totals + processed_tokens s.openai_totals
          ≡ processed_tokens s.totals)
      × (s.claude_totals.events + s.openai_totals.events ≡ s.totals.events)
      × (sum_by (λ m. m.cost) s.models ≡ s.totals.cost)
      × (sum_by (λ m. m.tokens) s.models ≡ processed_tokens s.totals)
summarize_usage-shares not_after range now db =
    let (costs, tokens, events) = summarize_usage-providers not_after range now db in
    let (rows_cost, rows_tokens) = summarize_usage-models not_after range now db in
    (costs, tokens, events, rows_cost, rows_tokens)

-- In every summary, the buckets of the chart, both providers in each, add up to the totals, in cost
-- and in processed tokens.
pub summarize_usage-buckets :
    (not_after : String → String → Bool) (range : RangeKey) (now : ℕ) (db : Db)
    → let s = summarize_usage not_after range now db in
      (sum_by (λ b. b.claude_slot.cost + b.openai_slot.cost) s.buckets ≡ s.totals.cost)
      × (sum_by (λ b. b.claude_slot.tokens + b.openai_slot.tokens) s.buckets
          ≡ processed_tokens s.totals)
unfolding summarize_usage
summarize_usage-buckets not_after range now db =
    let (costs, tokens, l) =
      empty_buckets-sum (from_of range now) (bucket_seconds_for range) (bucket_count range) in
    add_rows-ByBucket (from_of range now) (bucket_seconds_for range) (bucket_count range)
      (model_prices db) (rows_in (from_of range now) (pos (to_of range now)) db) (no_sums range now)
      (in_rows-HasBucket range now db) l (costs, tokens)
