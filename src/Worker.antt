-- ===== src/Worker.antt =====
-- apps/web/src/lib/worker.ts: what the worker does with a job, and what it publishes at a start. The
-- queue hands over the payload of a job; whether the job is acknowledged or retried, with its delay
-- and the text of the error, is the result. `now`, `later` and `id` are what a job reads from the
-- clock and from the random source.
pub mod Redelivery
pub mod Schedules
pub mod Convergence
mod Tests
use relaydot.Prelude.{
  Bool, true, false, any, ◌++◌, ℕ, String, Option, none, some, List, [], ◌∷◌, map, ◌=ˢ◌, ◌+ˢ◌,
  if◌then◌else◌, Result, ok, err, Error, failure, Exec, pure, throw, lift, ◌>>=◌, modify,
}
use relaydot.Json.{Json, Row, get, as_object, as_string}
use relaydot.Store.Schema.{ModelPrice, RunStatus, official_source, Db, Draw, audit}
use relaydot.Store.Catalog.{
  PriceInput, ObservedModel, upsert_model_prices, observe_catalog_models, start_catalog_check,
  finish_catalog_check,
}
use relaydot.Prices.{seed_prices}
use relaydot.Webdav.{WebdavConfig, Answer, Network, webdav_client}
use relaydot.Crypto.{Cipher, resolve_storage}
use relaydot.Ingest.{Host}
use relaydot.Ingest.Runs.{run_ingest}
use relaydot.Sources.Loading.{
  Loaded, loaded, unavailable, Reader, Feed, refresh, load_catalog_sources,
}

pub data Settled : Type 0 where
  acked : Settled
  retried : ℕ → String → Settled

-- `isJobPayload`, with the kind.
abbrev kind_of : Option Row → Option String
kind_of none = none
kind_of (some payload) = as_string (get "kind" payload)

abbrev command_id_of : Option Row → Option String
command_id_of none = none
command_id_of (some payload) = as_string (get "command_id" payload)

abbrev audited : Draw → Option String → Exec Db (Unit {0})
audited d none = throw (failure "command_created requires a command_id")
audited d (some id) = modify (audit d "command.queued" "command" id [])

unfoldable pub handle_command_created : Draw → Option Row → Exec Db (Unit {0})
handle_command_created d payload = audited d (command_id_of payload)

abbrev done : {A : Type 0} → A → Exec Db (Unit {0})
done a = pure tt

module _ (host : Host) (cipher : Cipher) (network : Network) (secret_key : Option (List ℕ))
    (reader : Reader) (feed : Feed) (path : String) where
  -- `webdav`: the constructor of the client may throw.
  abbrev client_of : Option WebdavConfig → Result (Option (String → String → Option Answer))
  client_of none = ok none
  client_of (some c) = elim (webdav_client network c) [ err e ↦ err e | ok send ↦ ok (some send) ]

  unfoldable pub handle_usage_ingest : ℕ → String → Exec Db (Unit {0})
  handle_usage_ingest now id db =
      (lift (client_of (resolve_storage cipher db secret_key)) >>= λ client.
      run_ingest host now id client >>= done)
        db

  abbrev refreshed : ℕ → ℕ → String → Loaded → Exec Db (Unit {0})
  refreshed now later id (loaded sources) = refresh feed now later id sources >>= done
  refreshed now later id (unavailable text) = start_catalog_check now id >>= λ id.
      modify (finish_catalog_check later id RunStatus.failed 0 0 text)

  unfoldable pub handle_catalog_refresh : ℕ → ℕ → String → Exec Db (Unit {0})
  handle_catalog_refresh now later id = refreshed now later id (load_catalog_sources reader path)

  abbrev handle_kind : Draw → ℕ → Option Row → Option String → Exec Db (Unit {0})
  handle_kind d later payload none = throw (failure "unknown job payload")
  handle_kind d later payload (some kind) =
      if kind =ˢ "command_created"
      then handle_command_created d payload
      else if kind =ˢ "usage_ingest"
      then handle_usage_ingest d.now d.id
      else if kind =ˢ "catalog_refresh"
      then handle_catalog_refresh d.now later d.id
      else throw (failure ("unknown job kind: " +ˢ kind))

  abbrev settled : Result (Unit {0}) × Db → Settled × Db
  settled (ok _, db) = (acked, db)
  settled (err e, db) = (retried 60 (host.message e), db)

  unfoldable pub process : Draw → ℕ → Json → Db → Settled × Db
  process d later payload db =
      let fields = as_object (some payload) in
      settled (handle_kind d later fields (kind_of fields) db)

-- `SEED_PRICES` as the rows that `upsertModelPrices` takes.
abbrev pub input_of : ModelPrice → PriceInput
input_of p = record {
  model_id = p.model_id;
  provider = p.provider;
  display_name = p.display_name;
  rates = p.rates;
  source_url = some p.source_url;
  approved_by = some p.approved_by;
  effective_date = some p.effective_date;
}

abbrev observed_of : ModelPrice → ObservedModel
observed_of p = record {
  model_id = p.model_id;
  provider = p.provider;
  display_name = p.display_name;
  origin = official_source;
  source_url = some p.source_url;
}

-- The rows that `seed` writes; the schedules follow.
unfoldable pub seed_rows : ℕ → ℕ → Db → Db
seed_rows now later db =
    (observe_catalog_models later (map observed_of seed_prices)
      (upsert_model_prices now (map input_of seed_prices) db)).1

-- store.ts: `enqueueUnique`, whose fields come before the kind, and whether it enqueued.
unfoldable pub enqueue_unique : String → List (String × String) → Db → Bool × Db
enqueue_unique kind fields db = if any (λ job. job.kind =ˢ kind) db.jobs then (false, db) else (
  true,
  record db { jobs = db.jobs ++ record { kind = kind; fields = fields; max_attempts = 5 } ∷ [] },
)

abbrev unknown_job : Option Settled × Result Bool
unknown_job = (some (retried 1 "unknown job payload"), err (failure "unknown job payload"))

abbrev one_command : Draw → Option String → Option String → Db → (Option Settled × Result Bool) × Db
one_command d (some kind) (some id) db =
    if kind =ˢ "command_created"
    then ((some acked, ok true), audit d "command.queued" "command" id [] db)
    else (unknown_job, db)
one_command d _ _ db = (unknown_job, db)

-- store.ts: `processOneJob` on what the queue hands over, if it does: how the job is settled, what is
-- returned or thrown, and the database.
unfoldable pub process_one_job : Draw → Option Json → Db → (Option Settled × Result Bool) × Db
process_one_job d none db = ((none, ok false), db)
process_one_job d (some payload) db =
    let fields = as_object (some payload) in
    one_command d (kind_of fields) (command_id_of fields) db
