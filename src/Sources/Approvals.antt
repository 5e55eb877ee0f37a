-- ===== src/Sources/Approvals.antt =====
-- A check of the catalog lists models and approves no price.
use relaydot.Prelude.{
  ℕ, ◌≡◌, refl, String, Bool, Option, List, inl, inr, any, Bool-cases, Result, ok, err, Error, Exec,
  ◌>>=◌, after, ◌=ˢ◌,
}
use relaydot.Json.{Number, Json}
use relaydot.Store.Schema.{Db}
use relaydot.Store.Catalog.{observe_catalog_models, start_catalog_check, finish_catalog_check}
use relaydot.Store.Catalog.Queue.{IsListed, observe_catalog_models-IsListed}
use relaydot.Fetch.{Url, Response}
use relaydot.Sources.{CatalogSources}
use relaydot.Sources.Refresh.{
  CheckReport, Progress, check_providers, no_progress, finished, refresh_catalog,
}

-- The new database has the prices, the facts, the objects and the runs of the old.
abbrev pub KeepsUsage : Db → Db → Type 0
KeepsUsage old new =
    (new.prices ≡ old.prices) × (new.facts ≡ old.facts) × (new.objects ≡ old.objects)

module _ (parse_url : String → Option Url) (resolve : String → String → Option String)
    (declares_over : String → Number → Bool) (decode : List ℕ → String)
    (parse : String → Option Json) (upper : String → String) (show : ℕ → String)
    (message : Error → String) (env : String → Option String)
    (fetch : List (String × String) → ℕ → String → Option Response) where
  abbrev refresh : ℕ → ℕ → String → CatalogSources → Exec Db CheckReport
  refresh =
      refresh_catalog parse_url resolve declares_over decode parse upper show message env fetch

  abbrev finish : ℕ → String → Progress → Exec Db CheckReport
  finish now id p db =
      finished parse_url resolve declares_over decode parse upper show message env fetch now id p db

  continued :
      (now : ℕ) (p : Progress) (old : Db) (r : Result String × Db)
      → KeepsUsage old r.1
      → IsListed r.1
      → KeepsUsage old (after ((λ (s : Db). r) >>= λ id. finish now id p) old)
        × IsListed (after ((λ (s : Db). r) >>= λ id. finish now id p) old)
  unfolding finish_catalog_check observe_catalog_models
  continued now p old (err e, db) k v = (k, v)
  continued now p old (ok id, db) k v = (k, observe_catalog_models-IsListed now p.discovered db v)

  start_catalog_check-keeps :
      (started : ℕ) (id : String) (db : Db)
      → IsListed db
      → KeepsUsage db (start_catalog_check started id db).1
        × IsListed (start_catalog_check started id db).1
  unfolding start_catalog_check
  start_catalog_check-keeps started id db v = elim (Bool-cases (any (λ c. c.id =ˢ id) db.checks)) [
    | inl clash ↦ rw clash ((refl, refl, refl), v)
    | inr new ↦ rw new ((refl, refl, refl), v)
  ]

  -- A check of the catalog changes no price, no fact and no mark of an object, whatever the sources
  -- and their servers answer, and it keeps the status of every model in agreement with the prices.
  pub refresh_catalog-keeps :
      (started now : ℕ) (id : String) (sources : CatalogSources) (db : Db)
      → IsListed db
      → KeepsUsage db (after (refresh started now id sources) db)
        × IsListed (after (refresh started now id sources) db)
  unfolding refresh_catalog
  refresh_catalog-keeps started now id sources db v =
      let (k, w) = start_catalog_check-keeps started id db v in
      continued now
        (check_providers parse_url resolve declares_over decode parse upper show message env fetch
          sources sources.providers no_progress)
        db (start_catalog_check started id db) k w
