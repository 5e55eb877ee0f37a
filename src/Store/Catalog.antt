-- ===== src/Store/Catalog.antt =====
-- apps/web/src/lib/store.ts: approved prices, the catalog of models, and the records of catalog
-- checks and ingest runs.
pub mod Consistency
pub mod Queue
pub mod History
pub mod Counts
mod Tests
use relaydot.Prelude.{
  ℕ, ◌+◌, String, Bool, true, false, ◌&&◌, ◌||◌, Option, none, some, List, [], ◌∷◌, ◌++◌, ltb, ◌==◌,
  ◌=ˢ◌, if◌then◌else◌, get_or_else, any, update, delete, changes, upsert_changes, take, order_by,
  Exec, pure, ◌>>◌,
}
use relaydot.Store.Schema.{
  ModelPrice, PriceRates, CatalogModel, CatalogStatus, needs_price, priced, ignored, Origin, Db,
  RunStatus, CatalogCheck, IngestRun, insert_into,
}
use relaydot.Store.Order.{str_ltb}
use relaydot.Store.Usage.{reprice_model}

-- A row to approve: `updated_at` is the clock's.
pub record PriceInput : Type 0 where
  pub model_id : String
  pub provider : String
  pub display_name : String
  pub rates : PriceRates
  pub source_url : Option String
  pub approved_by : Option String
  pub effective_date : Option String

abbrev pub prices_model : String → ModelPrice → Bool
prices_model id p = p.model_id =ˢ id

abbrev pub is_model : String → CatalogModel → Bool
is_model id m = m.model_id =ˢ id

abbrev price_row : ℕ → PriceInput → ModelPrice
price_row now i = record {
  model_id = i.model_id;
  provider = i.provider;
  display_name = i.display_name;
  rates = i.rates;
  updated_at = now;
  source_url = get_or_else i.source_url "";
  approved_by = get_or_else i.approved_by "seed";
  effective_date = get_or_else i.effective_date "";
}

abbrev pub upsert_price : ModelPrice → List ModelPrice → List ModelPrice
upsert_price row prices =
    if any (prices_model row.model_id) prices
    then update (prices_model row.model_id) (λ _. row) prices
    else prices ++ row ∷ []

abbrev pub promote : ℕ → CatalogModel → CatalogModel
promote now m = record m { status = priced; last_seen_at = now }

-- One round of `upsertModelPrices`.
pub approve : ℕ → PriceInput → Db → Db
unfolding reprice_model
approve now i db =
    (reprice_model i.model_id (some i.rates) (record db {
      prices = upsert_price (price_row now i) db.prices;
      models = update (is_model i.model_id) (promote now) db.models;
    })).1

pub upsert_model_prices : ℕ → List PriceInput → Db → Db
unfolding approve
upsert_model_prices now [] db = db
upsert_model_prices now (i ∷ is) db = upsert_model_prices now is (approve now i db)

abbrev priced_before : ModelPrice → ModelPrice → Bool
priced_before a b = str_ltb a.model_id b.model_id

unfoldable pub model_prices : Db → List ModelPrice
model_prices db = order_by priced_before db.prices

abbrev pub is_priced : CatalogStatus → Bool
is_priced priced = true
is_priced _ = false

abbrev pub withdrawn : CatalogModel → CatalogModel
withdrawn m = record m { status = needs_price }

pub delete_model_price : String → Db → Bool × Db
unfolding reprice_model
delete_model_price model_id db =
    if changes (prices_model model_id) db.prices == 0 then (false, db) else (
      true,
      (reprice_model model_id none (record db {
        prices = delete (prices_model model_id) db.prices;
        models = update (λ m. is_model model_id m && is_priced m.status) withdrawn db.models;
      })).1,
    )

pub record ObservedModel : Type 0 where
  pub model_id : String
  pub provider : String
  pub display_name : String
  pub origin : Origin
  pub source_url : Option String

-- The row that `observeCatalogModels` inserts; `has_price` is `priced.has(model.model_id)`.
abbrev observed_row : ℕ → Bool → ObservedModel → CatalogModel
observed_row now has_price o = record {
  model_id = o.model_id;
  provider = o.provider;
  display_name = o.display_name;
  origin = o.origin;
  source_url = get_or_else o.source_url "";
  first_seen_at = now;
  last_seen_at = now;
  status = if has_price then priced else needs_price;
}

-- The conflict clause: a display name is replaced only while it is the id itself.
abbrev pub seen_again : ℕ → ObservedModel → CatalogModel → CatalogModel
seen_again now o m = record m {
  last_seen_at = now;
  display_name = if m.display_name =ˢ m.model_id then o.display_name else m.display_name;
}

abbrev pub observe_one : ℕ → Bool → ObservedModel → List CatalogModel → List CatalogModel
observe_one now has_price o models =
    if any (is_model o.model_id) models
    then update (is_model o.model_id) (seen_again now o) models
    else models ++ observed_row now has_price o ∷ []

-- The loop of `observeCatalogModels`, with `priced` as it was read before.
pub observe_each :
    ℕ → List ModelPrice → ℕ → List ObservedModel → List CatalogModel → ℕ × List CatalogModel
observe_each now prices added [] models = (added, models)
observe_each now prices added (o ∷ os) models =
    observe_each now prices (added + upsert_changes (is_model o.model_id) models) os
      (observe_one now (any (prices_model o.model_id) prices) o models)

unfoldable pub observe_catalog_models : ℕ → List ObservedModel → Db → ℕ × Db
unfolding observe_each
observe_catalog_models now os db =
    let (added, models) = observe_each now db.prices 0 os db.models in
    (added, record db { models = models })

-- `ORDER BY status, provider, model_id`
abbrev status_name : CatalogStatus → String
status_name needs_price = "needs_price"
status_name priced = "priced"
status_name ignored = "ignored"

abbrev listed_before : CatalogModel → CatalogModel → Bool
listed_before a b =
    str_ltb (status_name a.status) (status_name b.status)
    || (status_name a.status =ˢ status_name b.status
        && (str_ltb a.provider b.provider
            || (a.provider =ˢ b.provider && str_ltb a.model_id b.model_id)))

pub catalog_models : Db → List CatalogModel
catalog_models db = order_by listed_before db.models

abbrev pub resolve_status : CatalogStatus → Bool → CatalogStatus
resolve_status needs_price true = priced
resolve_status s _ = s

pub set_catalog_model_status : String → CatalogStatus → Db → Bool × Db
set_catalog_model_status model_id status db = (
  changes (is_model model_id) db.models == 1,
  record db {
    models =
        update (is_model model_id)
          (λ m. record m { status = resolve_status status (any (prices_model model_id) db.prices) })
          db.models;
  },
)

-- A check is recorded as failed until it is finished.
unfoldable pub start_catalog_check : ℕ → String → Exec Db String
start_catalog_check now id = do
  insert_into (λ db. db.checks) (λ db rows. record db { checks = rows }) (λ c. c.id =ˢ id)
      (record {
        id = id;
        started_at = now;
        finished_at = none;
        status = RunStatus.failed;
        discovered = 0;
        added = 0;
        detail = "";
      })
  pure id

unfoldable pub finish_catalog_check : ℕ → String → RunStatus → ℕ → ℕ → String → Db → Db
finish_catalog_check now id status discovered added detail db = record db {
  checks =
      update (λ c. c.id =ˢ id)
        (λ c. record c {
          finished_at = some now;
          status = status;
          discovered = discovered;
          added = added;
          detail = detail;
        })
        db.checks;
}

-- `ORDER BY started_at DESC, id LIMIT ?`
abbrev checked_before : CatalogCheck → CatalogCheck → Bool
checked_before a b =
    ltb b.started_at a.started_at || (a.started_at == b.started_at && str_ltb a.id b.id)

pub catalog_checks : ℕ → Db → List CatalogCheck
catalog_checks limit db = take limit (order_by checked_before db.checks)

pub record RunOutcome : Type 0 where
  pub status : RunStatus
  pub manifests : ℕ
  pub objects_seen : ℕ
  pub objects_read : ℕ
  pub facts_written : ℕ
  pub detail : String

unfoldable pub start_ingest_run : ℕ → String → Exec Db String
start_ingest_run now id = do
  insert_into (λ db. db.runs) (λ db rows. record db { runs = rows }) (λ r. r.id =ˢ id)
      (record {
        id = id;
        started_at = now;
        finished_at = none;
        status = RunStatus.failed;
        manifests = 0;
        objects_seen = 0;
        objects_read = 0;
        facts_written = 0;
        detail = "";
      })
  pure id

unfoldable pub finish_ingest_run : ℕ → String → RunOutcome → Db → Db
finish_ingest_run now id o db = record db {
  runs =
      update (λ r. r.id =ˢ id)
        (λ r. record r {
          finished_at = some now;
          status = o.status;
          manifests = o.manifests;
          objects_seen = o.objects_seen;
          objects_read = o.objects_read;
          facts_written = o.facts_written;
          detail = o.detail;
        })
        db.runs;
}

abbrev run_before : IngestRun → IngestRun → Bool
run_before a b =
    ltb b.started_at a.started_at || (a.started_at == b.started_at && str_ltb a.id b.id)

pub ingest_runs : ℕ → Db → List IngestRun
ingest_runs limit db = take limit (order_by run_before db.runs)
