-- ===== src/Prices.antt =====
-- apps/web/src/lib/prices.ts: the reviewed seed and the cost of a fact, in microUSD. Products and
-- quotients are exact: the program's doubles agree with them below 2^53. A seed's dollar prices are
-- whole numbers.
pub mod Rounding
use relaydot.Prelude.{ℕ, ◌+◌, ◌*◌, ◌/◌, String, List, [], ◌∷◌}
use relaydot.Store.Schema.{TokenCounts, PriceRates, ModelPrice}

abbrev pub mtok : ℕ
mtok = 1000000

-- `Math.round(n / MTOK)`: half up.
unfoldable pub round_mtok : ℕ → ℕ
round_mtok n = (n + 500000) / mtok

abbrev anthropic_pricing_document : String
anthropic_pricing_document = "https://platform.claude.com/docs/en/about-claude/pricing"

-- `Math.round(input * 1.25)` and `Math.round(input * 0.1)`.
pub anthropic : String → String → ℕ → ℕ → ModelPrice
anthropic model_id display_name input_usd output_usd = record {
  model_id = model_id;
  provider = "claude";
  display_name = display_name;
  rates = record {
    input_uncached = input_usd * mtok;
    cache_write_5m = (input_usd * mtok * 5 + 2) / 4;
    cache_write_1h = input_usd * mtok * 2;
    cache_write_other = (input_usd * mtok * 5 + 2) / 4;
    cache_read = (input_usd * mtok + 5) / 10;
    output = output_usd * mtok;
  };
  updated_at = 0;
  source_url = anthropic_pricing_document;
  approved_by = "seed";
  effective_date = "";
}

pub seed_prices : List ModelPrice
seed_prices =
    anthropic "claude-fable-5" "Claude Fable 5" 10 50
    ∷ anthropic "claude-mythos-5" "Claude Mythos 5" 10 50
    ∷ anthropic "claude-opus-5" "Claude Opus 5" 5 25
    ∷ anthropic "claude-opus-4-8" "Claude Opus 4.8" 5 25
    ∷ anthropic "claude-opus-4-7" "Claude Opus 4.7" 5 25
    ∷ anthropic "claude-opus-4-6" "Claude Opus 4.6" 5 25
    ∷ anthropic "claude-sonnet-5" "Claude Sonnet 5" 3 15
    ∷ anthropic "claude-sonnet-4-6" "Claude Sonnet 4.6" 3 15
    ∷ anthropic "claude-haiku-4-5" "Claude Haiku 4.5" 1 5
    ∷ []

-- The loop of `estimateCostMicroUsd` over the pairs of a count and a rate.
sum_parts : ℕ → List (ℕ × ℕ) → ℕ
sum_parts total [] = total
sum_parts total ((count, rate) ∷ parts) = sum_parts (total + round_mtok (count * rate)) parts

unfoldable pub estimate_cost : TokenCounts → PriceRates → ℕ
unfolding sum_parts
estimate_cost t r = sum_parts 0 (
    (t.input_uncached, r.input_uncached)
    ∷ (t.cache_write_5m, r.cache_write_5m)
    ∷ (t.cache_write_1h, r.cache_write_1h)
    ∷ (t.cache_write_other, r.cache_write_other)
    ∷ (t.cache_read, r.cache_read)
    ∷ (t.output, r.output)
    ∷ [])

unfoldable pub uncached_equivalent : TokenCounts → PriceRates → ℕ
uncached_equivalent t r =
    round_mtok (
      (t.input_uncached + t.cache_write_5m + t.cache_write_1h + t.cache_write_other + t.cache_read)
      * r.input_uncached)
    + round_mtok (t.output * r.output)
