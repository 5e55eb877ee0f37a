-- ===== src/Store/Catalog/Tests.antt =====
-- The theorems on prices, usage facts and the review queue, at a database with one priced fact.
use relaydot.Prelude.{
  ◌+◌, ◌*◌, ◌≤◌, ◌≡◌, refl, ◌≢◌, none, some, List, [], ◌∷◌, map, pos, first, length, arith,
}
use relaydot.Prices.{mtok, round_mtok, estimate_cost}
use relaydot.Prices.Rounding.{exact_cost, estimate_cost_bounds}
use relaydot.Store.Schema.{
  TokenCounts, UsageFact, PriceRates, ModelPrice, CatalogModel, exact, needs_price, priced, usage,
  Db, empty,
}
use relaydot.Store.Usage.{is_fact, upsert_fact, reprice_model}
use relaydot.Store.Usage.Reprice.{repriced, reprice_model-eq-map}
use relaydot.Store.Usage.Regrown.{upsert_fact-stale}
use relaydot.Store.Catalog.{
  PriceInput, ObservedModel, upsert_model_prices, delete_model_price, observe_catalog_models,
  set_catalog_model_status,
}
use relaydot.Store.Catalog.Consistency.{
  IsCosted, upsert_model_prices-IsCosted, delete_model_price-IsCosted,
}
use relaydot.Store.Catalog.Queue.{IsListed}
use relaydot.Store.Catalog.Counts.{observe_catalog_models-count}
use relaydot.Store.Catalog.History.{Reached, Reached-IsListed}

abbrev tokens : TokenCounts
tokens = record {
  input_uncached = 1000;
  cache_write_5m = 0;
  cache_write_1h = 0;
  cache_write_other = 0;
  cache_read = 50;
  output = 200;
}

abbrev more_tokens : TokenCounts
more_tokens = record tokens { output = 900 }

abbrev rates : PriceRates
rates = record {
  input_uncached = 5000000;
  cache_write_5m = 6250000;
  cache_write_1h = 10000000;
  cache_write_other = 6250000;
  cache_read = 500000;
  output = 25000000;
}

abbrev new_rates : PriceRates
new_rates = record rates { output = 30000000 }

abbrev fact : UsageFact
fact = record {
  usage_fact_id = "f1";
  device_id = none;
  provider = "claude";
  session_id = "s";
  model_id = "m";
  occurred_at = pos 100;
  tokens = tokens;
  reasoning_output = 0;
  estimated_cost = some 10025;
  price_match = exact;
  source_path = "claude/projects/s.jsonl";
  ingested_at = 200;
}

abbrev grown_fact : UsageFact
grown_fact = record fact { tokens = more_tokens; estimated_cost = some 27525 }

abbrev price : ModelPrice
price = record {
  model_id = "m";
  provider = "claude";
  display_name = "M";
  rates = rates;
  updated_at = 1;
  source_url = "";
  approved_by = "seed";
  effective_date = "";
}

abbrev model : CatalogModel
model = record {
  model_id = "m";
  provider = "claude";
  display_name = "M";
  origin = usage;
  source_url = "";
  first_seen_at = 1;
  last_seen_at = 1;
  status = priced;
}

abbrev one_priced : Db
one_priced = record empty { facts = fact ∷ []; prices = price ∷ []; models = model ∷ [] }

abbrev new_price : PriceInput
new_price = record {
  model_id = "m";
  provider = "claude";
  display_name = "M";
  rates = new_rates;
  source_url = none;
  approved_by = some "operator";
  effective_date = none;
}

abbrev observed : List ObservedModel
observed =
    record {
      model_id = "m";
      provider = "claude";
      display_name = "M";
      origin = usage;
      source_url = none;
    }
    ∷ record {
      model_id = "n";
      provider = "openai";
      display_name = "N";
      origin = usage;
      source_url = none;
    }
    ∷ []

one_priced-IsCosted : IsCosted one_priced
unfolding estimate_cost round_mtok
one_priced-IsCosted = record { unique = (refl, tt); costed = ((refl, refl), tt) }

estimate_cost_bounds_example :
    (exact_cost tokens rates ≤ (estimate_cost tokens rates + 3) * mtok)
    × (estimate_cost tokens rates * mtok ≤ exact_cost tokens rates + 3 * mtok)
estimate_cost_bounds_example = estimate_cost_bounds tokens rates

reprice_model-eq-map_example :
    (reprice_model "m" (some new_rates) one_priced).1
    ≡ record one_priced { facts = map (repriced "m" (some new_rates)) (fact ∷ []) }
reprice_model-eq-map_example = reprice_model-eq-map "m" (some new_rates) one_priced (refl, tt)

grown-price : some 27525 ≡ some (estimate_cost more_tokens rates)
unfolding estimate_cost round_mtok
grown-price = refl

prices-differ : estimate_cost more_tokens rates ≢ estimate_cost tokens rates
unfolding estimate_cost round_mtok
prices-differ e = omega (arith, e)

upsert_fact-stale_example :
    (stored : UsageFact) × (first (is_fact "f1") (upsert_fact 300 grown_fact (fact ∷ []))
      ≡ some stored)
    × (stored.tokens ≡ tokens)
    × (stored.estimated_cost ≡ some 27525)
    × (stored.estimated_cost ≢ some (estimate_cost stored.tokens rates))
upsert_fact-stale_example =
    upsert_fact-stale 300 fact grown_fact rates (fact ∷ []) refl grown-price prices-differ

upsert_model_prices-IsCosted_example : IsCosted (upsert_model_prices 5 (new_price ∷ []) one_priced)
upsert_model_prices-IsCosted_example =
    upsert_model_prices-IsCosted 5 (new_price ∷ []) one_priced one_priced-IsCosted

delete_model_price-IsCosted_example : IsCosted (delete_model_price "m" one_priced).1
delete_model_price-IsCosted_example = delete_model_price-IsCosted "m" one_priced one_priced-IsCosted

observe_catalog_models-count_example :
    let first = (observe_catalog_models 5 observed one_priced).1 in
    ((observe_catalog_models 5 observed one_priced).0 ≡ length observed)
    × ((observe_catalog_models 6 observed first).0 ≡ length observed)
    × (length (observe_catalog_models 6 observed first).1.models ≡ length first.models)
observe_catalog_models-count_example =
    observe_catalog_models-count 5 6 observed one_priced (refl, tt)

abbrev restored : Db
restored =
    (set_catalog_model_status "m" needs_price
      (upsert_model_prices 5 (new_price ∷ []) (observe_catalog_models 4 observed empty).1)).1

Reached-IsListed_example : IsListed restored
Reached-IsListed_example = Reached-IsListed (
    Reached.status_set "m" needs_price refl
      (Reached.approved 5 (new_price ∷ []) (Reached.observed 4 observed Reached.created)))
