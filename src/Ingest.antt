-- ===== src/Ingest.antt =====
-- apps/web/src/lib/ingest.ts: the derivation of usage facts from the shared object store. `host`
-- holds what the runtime provides: the parsers of JSON, dates and UTF-8, SHA-256 of a text and of
-- bytes, the order of texts, `Number(value)` (`none` for `NaN`), and `as_time`, the number that the
-- database stores for a modification time, `none` for null. A digest of a manifest is a text.
pub mod Runs
pub mod Verified
mod Tests
use relaydot.Prelude.{
  ℕ, suc, ◌+◌, ◌*◌, String, Bool, true, false, not, ◌&&◌, ◌||◌, Option, none, some, List, [], ◌∷◌,
  ◌++◌, map, ltb, ◌=ˢ◌, ◌+ˢ◌, if◌then◌else◌, slice, any, update, length, ends_with, Result, ok, err,
  Error, ℤ,
}
use relaydot.Json.{
  Number, ratio, infinite, Json, str, arr, obj, Items, nil, cons, Row, get, as_object, as_string,
  as_text,
}
use relaydot.Prices.{estimate_cost}
use relaydot.Store.Schema.{UsageFact, ModelPrice, PriceMatch, exact, unpriced, usage, Db}
use relaydot.Store.Enrollment.{device_exists}
use relaydot.Store.Usage.{record_usage_facts, mark_object_ingested, is_object_ingested}
use relaydot.Store.Catalog.{ObservedModel}
use relaydot.Analytics.{price_of}
use relaydot.Transcripts.{ParsedFact, ParseReport}
use relaydot.Transcripts.Jsonl.{is_history_path, parse_by_path}
use relaydot.Webdav
use relaydot.Webdav.{WebdavEntry, Answer, is_digest, object_path}

pub record Host : Type 0 where
  pub parse : String → Option Json
  pub sha256 : String → String
  pub sha256_bytes : List ℕ → String
  pub decode : List ℕ → String
  pub parse_date : String → Option ℤ
  pub not_after : String → String → Bool
  pub stringify_event : Row → Json → String
  pub to_number : Option Json → Option Number
  pub as_time : Option Json → Option ℤ
  pub message : Error → String

pub record PublishedEntry : Type 0 where
  pub path : String
  pub digest : String
  pub size : Option Json
  pub modified_at : Option Json

-- The fields of a manifest that the ingest reads.
pub record DeviceManifest : Type 0 where
  pub device_id : String
  pub entries : List PublishedEntry

pub record IngestReport : Type 0 where
  pub manifests : ℕ
  pub objects_seen : ℕ
  pub objects_read : ℕ
  pub facts_written : ℕ
  pub skipped_large : ℕ
  pub malformed : ℕ
  pub errors : List String

abbrev pub empty_report : IngestReport
empty_report = record {
  manifests = 0;
  objects_seen = 0;
  objects_read = 0;
  facts_written = 0;
  skipped_large = 0;
  malformed = 0;
  errors = [];
}

abbrev pub max_object_bytes : ℕ
max_object_bytes = 67108864

abbrev entry_of : Row → Option String → Option String → List PublishedEntry → List PublishedEntry
entry_of item (some path) (some digest) rest =
    if is_digest digest
    then record {
      path = path;
      digest = digest;
      size = get "size" item;
      modified_at = get "modified_at" item;
    }
      ∷ rest
    else rest
entry_of item _ _ rest = rest

-- The filter of the entries.
pub read_entries : Items → List PublishedEntry
read_entries nil = []
read_entries (cons (obj item) rest) =
    entry_of item (as_string (get "path" item)) (as_string (get "digest" item)) (read_entries rest)
read_entries (cons _ rest) = read_entries rest

abbrev manifest_of : Option String → Option Json → Option DeviceManifest
manifest_of (some id) (some (arr items)) =
    some (record { device_id = id; entries = read_entries items })
manifest_of _ _ = none

-- `none` is null.
unfoldable pub parse_manifest : (String → Option Json) → String → Option DeviceManifest
parse_manifest parse text = elim (as_object (parse text)) [
  | none ↦ none
  | some manifest ↦ manifest_of (as_text (get "device_id" manifest)) (get "entries" manifest)
]

-- `Number(item.size) > limit`.
abbrev pub is_larger : ℕ → Option Number → Bool
is_larger limit none = false
is_larger limit (some (infinite negative)) = not negative
is_larger limit (some (ratio negative n below)) = not negative && ltb (limit * suc below) n

abbrev pub time_or : ℤ → Option ℤ → ℤ
time_or now none = now
time_or now (some t) = t

abbrev cost_of : ParsedFact → Option ModelPrice → Option ℕ
cost_of f none = none
cost_of f (some p) = some (estimate_cost f.tokens p.rates)

abbrev match_of : Option ModelPrice → PriceMatch
match_of none = unpriced
match_of (some p) = exact

-- The row of a fact; the store sets `ingested_at`.
pub fact_row : List ModelPrice → Option String → String → ParsedFact → UsageFact
fact_row prices device_id source_path f = record {
  usage_fact_id = f.usage_fact_id;
  device_id = device_id;
  provider = f.provider;
  session_id = f.session_id;
  model_id = f.model_id;
  occurred_at = f.occurred_at;
  tokens = f.tokens;
  reasoning_output = f.reasoning_output;
  estimated_cost = cost_of f (price_of f.model_id prices);
  price_match = match_of (price_of f.model_id prices);
  source_path = source_path;
  ingested_at = 0;
}

-- What a run keeps: the map `observed` in the order of its keys, the report and the database.
pub record Progress : Type 0 where
  pub report : IngestReport
  pub observed : List (String × String)
  pub db : Db

abbrev is_model : String → String × String → Bool
is_model id (model, provider) = model =ˢ id

abbrev pub observe : ParsedFact → List (String × String) → List (String × String)
observe f observed =
    if any (is_model f.model_id) observed
    then update (is_model f.model_id) (λ _. (f.model_id, f.provider)) observed
    else observed ++ (f.model_id, f.provider) ∷ []

abbrev pub observe_all : List ParsedFact → List (String × String) → List (String × String)
observe_all [] observed = observed
observe_all (f ∷ fs) observed = observe_all fs (observe f observed)

abbrev pub failed : String → Progress → Progress
failed text p = record p { report = record p.report { errors = p.report.errors ++ text ∷ [] } }

module _ (host : Host) (send : String → String → Option Answer) (now : ℕ) (clock : ℤ) (limit : ℕ)
    (prices : List ModelPrice) where
  abbrev pub count_read : Progress → Progress
  count_read p = record p { report = record p.report { objects_read = p.report.objects_read + 1 } }

  abbrev pub recorded : PublishedEntry → ParseReport → Progress → Result ℕ × Db → Progress
  recorded item parsed p (err e, after) =
      failed (item.path +ˢ ": " +ˢ host.message e) (record p { db = after })
  recorded item parsed p (ok written, after) = record p {
    report = record p.report { facts_written = p.report.facts_written + written };
    db = mark_object_ingested now item.digest item.path (length parsed.facts) after;
  }

  abbrev pub counted : ParseReport → Progress → Progress
  counted parsed p = record p {
    report = record p.report { malformed = p.report.malformed + parsed.malformed };
    observed = observe_all parsed.facts p.observed;
  }

  -- From a report of the parser on.
  pub write_facts : Option String → PublishedEntry → ParseReport → Progress → Progress
  write_facts device_id item parsed p =
      recorded item parsed (counted parsed p)
        (record_usage_facts now (map (fact_row prices device_id item.path) parsed.facts) p.db)

  abbrev pub parsed_as : Option String → PublishedEntry → Progress → Option ParseReport → Progress
  parsed_as device_id item p none = count_read p
  parsed_as device_id item p (some parsed) = write_facts device_id item parsed (count_read p)

  abbrev pub mismatch : PublishedEntry → String → String
  mismatch item actual =
      item.path
      +ˢ ": object "
      +ˢ slice item.digest 0 12
      +ˢ " hashes to "
      +ˢ slice actual 0 12
      +ˢ "; skipped"

  -- From the bytes on: they must hash to the digest.
  pub read_object : Option String → PublishedEntry → List ℕ → Progress → Progress
  unfolding write_facts
  read_object device_id item bytes p =
      if host.sha256_bytes bytes =ˢ item.digest
      then parsed_as device_id item p (
          parse_by_path host.parse host.sha256 host.parse_date host.not_after host.stringify_event
            item.path (host.decode bytes) (time_or clock (host.as_time item.modified_at)))
      else failed (mismatch item (host.sha256_bytes bytes)) p

  abbrev pub fetched :
      Option String → PublishedEntry → Progress → Result (Option (List ℕ)) → Progress
  fetched device_id item p (err e) = failed (item.path +ˢ ": " +ˢ host.message e) p
  fetched device_id item p (ok none) =
      failed (item.path +ˢ ": object " +ˢ slice item.digest 0 12 +ˢ " missing") p
  fetched device_id item p (ok (some bytes)) = read_object device_id item bytes p

  -- `client.get(objectPath(digest))`.
  unfoldable pub object_of : PublishedEntry → Result (Option (List ℕ))
  object_of item = elim (object_path item.digest) [
    | err e ↦ err e
    | ok path ↦ Webdav.get send host.decode path
  ]

  abbrev pub count_seen : Progress → Progress
  count_seen p = record p { report = record p.report { objects_seen = p.report.objects_seen + 1 } }

  abbrev pub count_large : Progress → Progress
  count_large p = record p {
    report = record p.report { skipped_large = p.report.skipped_large + 1 };
  }

  -- The body of the loop over the entries.
  pub ingest_item : Option String → PublishedEntry → Progress → Progress
  unfolding read_object
  ingest_item device_id item p =
      if not (is_history_path item.path)
      then p
      else if is_object_ingested item.digest item.path p.db
      then count_seen p
      else if is_larger limit (host.to_number item.size)
      then count_large (count_seen p)
      else fetched device_id item (count_seen p) (object_of item)

  pub ingest_items : Option String → List PublishedEntry → Progress → Progress
  unfolding ingest_item
  ingest_items device_id [] p = p
  ingest_items device_id (item ∷ items) p =
      ingest_items device_id items (ingest_item device_id item p)

  abbrev pub count_manifest : Progress → Progress
  count_manifest p = record p { report = record p.report { manifests = p.report.manifests + 1 } }

  abbrev unreadable : String → Progress → Progress
  unreadable href p =
      failed (href +ˢ ": not a readable device manifest")
        (record p { report = record p.report { malformed = p.report.malformed + 1 } })

  abbrev pub with_manifest : String → Progress → Option DeviceManifest → Progress
  with_manifest href p none = unreadable href p
  with_manifest href p (some m) =
      ingest_items (if device_exists m.device_id p.db then some m.device_id else none) m.entries
        (count_manifest p)

  abbrev pub with_text : String → Progress → Result (Option String) → Progress
  with_text href p (err e) = failed (href +ˢ ": " +ˢ host.message e) p
  with_text href p (ok none) = unreadable href p
  with_text href p (ok (some text)) = with_manifest href p (parse_manifest host.parse text)

  -- The body of the loop over the listing.
  pub ingest_entry : WebdavEntry → Progress → Progress
  unfolding ingest_items
  ingest_entry entry p =
      if entry.is_directory || not (ends_with entry.name ".json")
      then p
      else with_text entry.href p (Webdav.get_text send host.decode entry.href)

  pub ingest_entries : List WebdavEntry → Progress → Progress
  unfolding ingest_entry
  ingest_entries [] p = p
  ingest_entries (entry ∷ entries) p = ingest_entries entries (ingest_entry entry p)
