-- ===== src/Analytics/Tests.antt =====
-- The conservation theorems at a database with a fact of each provider.
use relaydot.Analytics.Labels.{clock_label, format_tokens}
use relaydot.Prelude.{
  if◌then◌else◌, ◌==◌, refl, ℕ, ◌+◌, ◌≡◌, String, Bool, true, none, [], ◌∷◌, pos, sum_by,
}
use relaydot.Store.Schema.{UsageFact, ModelPrice, unpriced, Db, empty}
use relaydot.Analytics.{past_24h, seven_days, processed_tokens, summarize_usage}
use relaydot.Analytics.Conservation.{summarize_usage-shares, summarize_usage-buckets}

abbrev not_after : String → String → Bool
not_after a b = true

abbrev first_fact : UsageFact
first_fact = record {
  usage_fact_id = "f1";
  device_id = none;
  provider = "claude";
  session_id = "s";
  model_id = "m";
  occurred_at = pos 90000;
  tokens = record {
    input_uncached = 1000;
    cache_write_5m = 10;
    cache_write_1h = 0;
    cache_write_other = 0;
    cache_read = 50;
    output = 200;
  };
  reasoning_output = 7;
  estimated_cost = none;
  price_match = unpriced;
  source_path = "claude/projects/s.jsonl";
  ingested_at = 200;
}

abbrev second_fact : UsageFact
second_fact = record first_fact {
  usage_fact_id = "f2";
  provider = "openai";
  model_id = "n";
  occurred_at = pos 93600;
}

abbrev price : ModelPrice
price = record {
  model_id = "m";
  provider = "claude";
  display_name = "M";
  rates = record {
    input_uncached = 5000000;
    cache_write_5m = 6250000;
    cache_write_1h = 10000000;
    cache_write_other = 6250000;
    cache_read = 500000;
    output = 25000000;
  };
  updated_at = 1;
  source_url = "";
  approved_by = "seed";
  effective_date = "";
}

abbrev two_facts : Db
two_facts = record empty { facts = first_fact ∷ second_fact ∷ []; prices = price ∷ [] }

summarize_usage-shares_example :
    let s = summarize_usage not_after past_24h 100000 two_facts in
    (s.claude_totals.cost + s.openai_totals.cost ≡ s.totals.cost)
    × (processed_tokens s.claude_totals + processed_tokens s.openai_totals
        ≡ processed_tokens s.totals)
    × (s.claude_totals.events + s.openai_totals.events ≡ s.totals.events)
    × (sum_by (λ m. m.cost) s.models ≡ s.totals.cost)
    × (sum_by (λ m. m.tokens) s.models ≡ processed_tokens s.totals)
summarize_usage-shares_example = summarize_usage-shares not_after past_24h 100000 two_facts

summarize_usage-buckets_example :
    let s = summarize_usage not_after seven_days 100000 two_facts in
    (sum_by (λ b. b.claude_slot.cost + b.openai_slot.cost) s.buckets ≡ s.totals.cost)
    × (sum_by (λ b. b.claude_slot.tokens + b.openai_slot.tokens) s.buckets
        ≡ processed_tokens s.totals)
summarize_usage-buckets_example = summarize_usage-buckets not_after seven_days 100000 two_facts

abbrev digits : ℕ → String
digits n = if n == 0 then "0" else if n == 3 then "3" else if n == 250 then "250" else "many"

clocks :
    (clock_label digits 0 ≡ "12 AM")
    × (clock_label digits 12 ≡ "12 PM")
    × (clock_label digits 3 ≡ "3 AM")
    × (clock_label digits 15 ≡ "3 PM")
unfolding clock_label
clocks = (refl, refl, refl, refl)

tokens :
    (format_tokens digits (λ n d. "1.5") 250 ≡ "250")
    × (format_tokens digits (λ n d. "1.5") 1500 ≡ "1.5K")
    × (format_tokens digits (λ n d. "1.5") 249500 ≡ "250K")
    × (format_tokens digits (λ n d. "1.5") 1500000 ≡ "1.5M")
unfolding format_tokens
tokens = (refl, refl, refl, refl)
