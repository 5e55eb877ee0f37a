-- ===== src/Ingest/Runs.antt =====
-- apps/web/src/lib/ingest.ts: a whole ingest, and its record in the database.
use relaydot.Prelude.{
  ℕ, String, Option, none, some, List, [], map, take, join, ltb, length, if◌then◌else◌, Result, ok,
  err, Exec, ◌>>=◌, pos,
}
use relaydot.Store.Schema.{usage, RunStatus, Db}
use relaydot.Store.Catalog.{
  ObservedModel, RunOutcome, model_prices, observe_catalog_models, start_ingest_run,
  finish_ingest_run,
}
use relaydot.Webdav
use relaydot.Webdav.{WebdavEntry, Answer}
use relaydot.Ingest.{Host, IngestReport, empty_report, Progress, ingest_entries, max_object_bytes}

abbrev observed_model : String × String → ObservedModel
observed_model (model_id, provider) = record {
  model_id = model_id;
  provider = provider;
  display_name = model_id;
  origin = usage;
  source_url = none;
}

abbrev outcome_of : IngestReport → RunStatus → String → RunOutcome
outcome_of report status detail = record {
  status = status;
  manifests = report.manifests;
  objects_seen = report.objects_seen;
  objects_read = report.objects_read;
  facts_written = report.facts_written;
  detail = detail;
}

module _ (host : Host) where
  abbrev pub walked : (String → String → Option Answer) → ℕ → List WebdavEntry → Db → Progress
  walked send now entries db =
      ingest_entries host send now (pos now) max_object_bytes (model_prices db) entries
        (record { report = empty_report; observed = []; db = db })

  abbrev finished : ℕ → Progress → Result IngestReport × Db
  finished now p =
      (ok p.report, (observe_catalog_models now (map observed_model p.observed) p.db).1)

  -- From the listing on: its error is thrown, and every other error is in the report.
  abbrev pub from_listing :
      (String → String → Option Answer) → ℕ → Result (List WebdavEntry) → Exec Db IngestReport
  from_listing send now (err e) db = (err e, db)
  from_listing send now (ok entries) db = finished now (walked send now entries db)

  unfoldable pub ingest_usage : (String → String → Option Answer) → ℕ → Exec Db IngestReport
  ingest_usage send now db = from_listing send now (Webdav.list send host.decode "manifests") db

  abbrev status_of : IngestReport → RunStatus
  status_of report = if ltb 0 (length report.errors) then RunStatus.partial else RunStatus.ok

  abbrev pub recorded :
      ℕ → String → Result IngestReport × Db → Result (IngestReport × RunStatus) × Db
  recorded now id (ok report, db) = (
    ok (report, status_of report),
    finish_ingest_run now id
        (outcome_of report (status_of report) (join "; " (take 5 report.errors))) db,
  )
  recorded now id (err e, db) = (
    err e,
    finish_ingest_run now id (outcome_of empty_report RunStatus.failed (host.message e)) db,
  )

  abbrev pub run_with :
      ℕ → Option (String → String → Option Answer) → String → Exec Db (IngestReport × RunStatus)
  run_with now none id db = (
    ok (empty_report, RunStatus.skipped),
    finish_ingest_run now id
        (outcome_of empty_report RunStatus.skipped "no WebDAV storage backend is configured") db,
  )
  run_with now (some send) id db = recorded now id (ingest_usage send now db)

  -- `client` is `none` where no backend is configured.
  unfoldable pub run_ingest :
      ℕ → String → Option (String → String → Option Answer) → Exec Db (IngestReport × RunStatus)
  run_ingest now id client = start_ingest_run now id >>= run_with now client
