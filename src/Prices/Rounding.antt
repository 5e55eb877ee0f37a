-- ===== src/Prices/Rounding.antt =====
-- How far a rounded cost can be from the exact one, and what the cache can save.
use relaydot.Prelude.{ℕ, ◌+◌, ◌*◌, ◌≤◌, ◌≡◌, arith}
use relaydot.Store.Schema.{TokenCounts, PriceRates}
use relaydot.Prices.{mtok, round_mtok, estimate_cost}

round_mtok_bounds :
    (n : ℕ) → (n ≤ round_mtok n * mtok + 500000) × (round_mtok n * mtok ≤ n + 500000)
unfolding round_mtok
round_mtok_bounds n = (omega arith, omega arith)

-- The exact cost of a fact, in millionths of a microUSD.
abbrev pub exact_cost : TokenCounts → PriceRates → ℕ
exact_cost t r =
    t.input_uncached * r.input_uncached
    + t.cache_write_5m * r.cache_write_5m
    + t.cache_write_1h * r.cache_write_1h
    + t.cache_write_other * r.cache_write_other
    + t.cache_read * r.cache_read
    + t.output * r.output

estimate_cost_lem :
    (t : TokenCounts) (r : PriceRates)
    → estimate_cost t r
      ≡ round_mtok (t.input_uncached * r.input_uncached)
        + round_mtok (t.cache_write_5m * r.cache_write_5m)
        + round_mtok (t.cache_write_1h * r.cache_write_1h)
        + round_mtok (t.cache_write_other * r.cache_write_other)
        + round_mtok (t.cache_read * r.cache_read)
        + round_mtok (t.output * r.output)
unfolding estimate_cost
estimate_cost_lem t r = omega arith

-- The estimate is within three microUSD of the exact cost, above or below.
pub estimate_cost_bounds :
    (t : TokenCounts) (r : PriceRates)
    → (exact_cost t r ≤ (estimate_cost t r + 3) * mtok)
      × (estimate_cost t r * mtok ≤ exact_cost t r + 3 * mtok)
estimate_cost_bounds t r =
    (omega (arith, estimate_cost_lem t r, bounds), omega (arith, estimate_cost_lem t r, bounds))
  where
    bounds : (n : ℕ) → (n ≤ round_mtok n * mtok + 500000) × (round_mtok n * mtok ≤ n + 500000)
    bounds = round_mtok_bounds
