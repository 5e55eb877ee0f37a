-- ===== src/Api/Catalog.antt =====
-- apps/web/src/lib/api.ts: the catalog's page and the check on demand. `path` is
-- `catalogSourcesPath`; `started` and `now` are the times that the check reads.
use relaydot.Prelude.{
  ℕ, String, Option, none, some, Result, ok, err, validation, Exec, pure, lift, gets, ◌>>=◌,
}
use relaydot.Store.Schema.{Db}
use relaydot.Store.Catalog.{catalog_models, model_prices, catalog_checks}
use relaydot.Sources.{CatalogSources}
use relaydot.Sources.Loading.{
  Loaded, loaded, unavailable, Reader, Feed, refresh, load_catalog_sources,
}
use relaydot.Access.{Runtime, Config, Request}
use relaydot.Api.{catalog, check_report, Response, json, handle, as_admin}

abbrev sources_of : Loaded → Option CatalogSources
sources_of (loaded sources) = some sources
sources_of (unavailable text) = none

abbrev error_of : Loaded → Option String
error_of (loaded sources) = none
error_of (unavailable text) = some text

abbrev page : Loaded → Db → Response
page l db =
    json
      (catalog (sources_of l) (error_of l) (catalog_models db) (model_prices db)
        (catalog_checks 5 db))
      200

abbrev available : Loaded → Result CatalogSources
available (loaded sources) = ok sources
available (unavailable text) = err (validation text)

module _ (rt : Runtime) (reader : Reader) where
  abbrev loaded_from : Option String → Loaded
  loaded_from none = unavailable "no catalog source configuration path is set"
  loaded_from (some path) = load_catalog_sources reader path

  unfoldable pub catalog_handler : Option String → Config → ℕ → Request → Exec Db Response
  catalog_handler path cfg now r = as_admin rt cfg now r (gets (page (loaded_from path)))

  unfoldable pub check_catalog_handler :
      Feed → Option String → Config → ℕ → ℕ → ℕ → String → Request → Exec Db Response
  check_catalog_handler feed path cfg guard_now started now id r = as_admin rt cfg guard_now r (
      handle (do
        sources ← lift (available (loaded_from path))
        report ← refresh feed started now id sources
        pure (json (check_report report) 200)))
