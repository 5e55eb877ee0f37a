-- ===== src/Store/Usage/Regrown.antt =====
-- What a second reading of a transcript does to a fact that has changed since the first.
use relaydot.Prelude.{
  ℕ, ◌≡◌, ◌≢◌, refl, some, List, arith, first, any-first, first-holds, first-update,
}
use relaydot.Prices.{estimate_cost}
use relaydot.Store.Schema.{UsageFact, PriceRates}
use relaydot.Store.Usage.{is_fact, overwrite_cost, upsert_fact}

-- A fact that is stored already keeps the token counts of its first reading, and takes the cost of
-- the second: where the counts of the two differ in price, the stored cost is not that of the
-- stored tokens at the rates of the second.
pub upsert_fact-stale :
    (now : ℕ) (old new : UsageFact) (rates : PriceRates) (facts : List UsageFact)
    → first (is_fact new.usage_fact_id) facts ≡ some old
    → new.estimated_cost ≡ some (estimate_cost new.tokens rates)
    → estimate_cost new.tokens rates ≢ estimate_cost old.tokens rates
    → (stored : UsageFact) × (first (is_fact new.usage_fact_id) (upsert_fact now new facts)
        ≡ some stored)
      × (stored.tokens ≡ old.tokens)
      × (stored.estimated_cost ≡ new.estimated_cost)
      × (stored.estimated_cost ≢ some (estimate_cost stored.tokens rates))
upsert_fact-stale now old new rates facts h cost differ = (
  overwrite_cost new old,
  ground (
    arith,
    any-first (is_fact new.usage_fact_id) facts,
    first-holds (is_fact new.usage_fact_id) facts old,
    first-update (is_fact new.usage_fact_id) (is_fact new.usage_fact_id) (overwrite_cost new) facts
        (λ f. refl),
  ),
  refl,
  refl,
  λ e. differ (ground arith),
)
