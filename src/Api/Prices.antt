-- ===== src/Api/Prices.antt =====
-- apps/web/src/lib/api.ts: the approval of prices and the queue of models. `show` prints a number,
-- and `show_whole` is `toFixed(0)`.
pub mod Review
use relaydot.Prelude.{
  ℕ, suc, ◌+◌, ◌-◌, ◌*◌, ◌/◌, String, Bool, true, false, not, ◌&&◌, Option, none, some, List, [],
  ◌∷◌, ltb, ◌==◌, ◌=ˢ◌, ◌+ˢ◌, if◌then◌else◌, first, get_or_else, Result, ok, err, validation, Exec,
  pure, lift, ◌>>=◌,
}
use relaydot.Json.{
  Number, ratio, infinite, Json, num, str, bool, Row, get, as_string, as_text, is_nullish,
  is_finite,
}
use relaydot.Store.Schema.{PriceRates, ModelPrice, CatalogStatus, needs_price, ignored, Db}
use relaydot.Store.Catalog.{
  PriceInput, prices_model, model_prices, upsert_model_prices, delete_model_price,
  set_catalog_model_status,
}
use relaydot.Api.Rates.{read_price}
use relaydot.Sources.{CatalogSources}
use relaydot.Access.{Runtime, Config, Request}
use relaydot.Api.{
  Content, error, requires_confirmation, approved, withdrawn, catalog_status, Response, json,
  handle, body_object, require_string, as_admin,
}

-- `Math.abs(after - before)`.
abbrev pub distance : ℕ → ℕ → ℕ
distance before after = if ltb before after then after - before else before - after

-- `change > threshold`, for a nonzero rate before, on exact fractions: the program's double may fall on
-- the other side of the threshold.
abbrev pub moves_over : Number → ℕ → ℕ → Bool
moves_over (infinite negative) before after = negative
moves_over (ratio negative m below) before after =
    if negative && not (m == 0)
    then true
    else ltb (m * before) (distance before after * 100 * suc below)

abbrev pub guarded_fields : PriceRates → PriceRates → List (String × (ℕ × ℕ))
guarded_fields before after =
    ("input_uncached_microusd_per_mtok", (before.input_uncached, after.input_uncached))
    ∷ ("cache_write_5m_microusd_per_mtok", (before.cache_write_5m, after.cache_write_5m))
    ∷ ("cache_write_1h_microusd_per_mtok", (before.cache_write_1h, after.cache_write_1h))
    ∷ ("cache_read_microusd_per_mtok", (before.cache_read, after.cache_read))
    ∷ ("output_microusd_per_mtok", (before.output, after.output))
    ∷ []

-- `blockOnRateChangePercent` of the sources, where there are any.
abbrev pub threshold_of : Option CatalogSources → Number
threshold_of none = ratio false 50 0
threshold_of (some sources) = sources.block_on_rate_change_percent

abbrev pub is_confirmed : Option Json → Bool
is_confirmed (some (bool true)) = true
is_confirmed _ = false

module _ (show show_whole : Number → String) where
  abbrev guard_message : Number → String → ℕ → ℕ → String
  guard_message threshold field before after =
      field
      +ˢ " changes by "
      +ˢ show_whole (ratio false (distance before after * 100) (before - 1))
      +ˢ "%, over the "
      +ˢ show threshold
      +ˢ "% "
      +ˢ "review threshold; resubmit with confirm to approve"

  -- The loop of `rateChangeGuard` over the fields.
  unfoldable pub guard_fields : Number → List (String × (ℕ × ℕ)) → Option String
  guard_fields threshold [] = none
  guard_fields threshold ((field, (before, after)) ∷ rows) =
      let rest = guard_fields threshold rows in
      if before == 0
      then rest
      else if moves_over threshold before after
      then some (guard_message threshold field before after)
      else rest

  unfoldable pub rate_change_guard : Option CatalogSources → PriceInput → Bool → Db → Option String
  rate_change_guard sources row confirmed db =
      if confirmed then none else elim (first (prices_model row.model_id) (model_prices db)) [
        | none ↦ none
        | some existing ↦
            guard_fields (threshold_of sources) (guarded_fields existing.rates row.rates)
      ]

  -- From the row on.
  unfoldable pub save_row : Option CatalogSources → ℕ → Row → PriceInput → Exec Db Response
  save_row sources now body row db =
      elim (rate_change_guard sources row (is_confirmed (get "confirm" body)) db) [
        | some message ↦ (ok (json (requires_confirmation message) 409), db)
        | none ↦ (ok (json (approved row.model_id) 200), upsert_model_prices now (row ∷ []) db)
      ]

  module _ (rt : Runtime) where
    unfoldable pub save_price_handler :
        Option CatalogSources → Config → ℕ → Request → Exec Db Response
    save_price_handler sources cfg now r = as_admin rt cfg now r (
        handle (do
          body ← body_object r
          row ← lift (read_price rt.protocol_of body)
          save_row sources now body row))

module _ (rt : Runtime) where
  abbrev withdraw : String → Bool × Db → Result Response × Db
  withdraw model_id (true, after) = (ok (json (withdrawn model_id) 200), after)
  withdraw model_id (false, after) =
      (ok (json (error "no approved price for that model") 404), after)

  unfoldable pub delete_price_handler : Config → ℕ → Request → String → Exec Db Response
  delete_price_handler cfg now r model_id =
      as_admin rt cfg now r (λ db. withdraw model_id (delete_model_price model_id db))

  abbrev pub settable : Option String → Result CatalogStatus
  settable none = err (validation "status must be needs_price or ignored")
  settable (some s) =
      if s =ˢ "needs_price"
      then ok needs_price
      else if s =ˢ "ignored"
      then ok ignored
      else err (validation "status must be needs_price or ignored")

  abbrev set_as : String → CatalogStatus → Bool × Db → Result Response × Db
  set_as model_id status (true, after) = (ok (json (catalog_status model_id status) 200), after)
  set_as model_id status (false, after) = (ok (json (error "unknown model") 404), after)

  unfoldable pub set_catalog_status_handler : Config → ℕ → Request → String → Exec Db Response
  set_catalog_status_handler cfg now r model_id = as_admin rt cfg now r (
      handle (do
        body ← body_object r
        status ← lift (settable (as_string (get "status" body)))
        (λ db. set_as model_id status (set_catalog_model_status model_id status db))))
