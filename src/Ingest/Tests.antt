-- ===== src/Ingest/Tests.antt =====
-- An ingest of an object store with one manifest and one object.
use relaydot.Prelude.{
  ◌≡◌, refl, ℕ, String, true, false, Option, none, some, List, [], ◌∷◌, ◌⊎◌, ◌=ˢ◌, if◌then◌else◌,
}
use relaydot.Json.{ratio, Json, str, arr, obj, nil, cons, end, field}
use relaydot.Store.Schema.{empty}
use relaydot.Store.Usage.{is_object_ingested, mark_object_ingested, record_usage_facts}
use relaydot.Store.Catalog.{
  observe_catalog_models, start_ingest_run, finish_ingest_run, model_prices,
}
use relaydot.Store.Enrollment.{device_exists}
use relaydot.Transcripts.Jsonl.{is_history_path, parse_by_path, read_jsonl}
use relaydot.Transcripts.Codex.{parse_codex, codex_rows}
use relaydot.Webdav
use relaydot.Webdav.{Answer}
use relaydot.Ingest.{Host, ingest_entries, parse_manifest, read_entries, object_of}
use relaydot.Ingest.Runs.{run_ingest, ingest_usage}
use relaydot.Ingest.Verified.{IsVerified, run_ingest-IsVerified}

abbrev digest : String
digest = "0123456789abcdef0123456789abcdef0123456789abcdef0123456789abcdef"

abbrev history : String
history = "codex/sessions/run.jsonl"

abbrev manifest : Json
manifest = obj (
    field "device_id" (str "d1") (
      field "entries"
        (arr (cons (obj (field "path" (str history) (field "digest" (str digest) end))) nil)) end))

abbrev host : Host
host = record {
  parse = λ text. if text =ˢ "manifest" then some manifest else none;
  sha256 = λ s. s;
  sha256_bytes = λ bytes. digest;
  decode = λ bytes. elim bytes [ [] ↦ "" | b ∷ bs ↦ "manifest" ];
  parse_date = λ s. none;
  not_after = λ a b. true;
  stringify_event = λ row t. "event";
  to_number = λ value. some (ratio false 0 0);
  as_time = λ value. none;
  message = λ e. "error";
}

abbrev answer : List ℕ → Answer
answer bytes = record {
  status = 200;
  bytes = bytes;
  entries =
      some (record { href = "manifests/d1.json"; name = "d1.json"; is_directory = false } ∷ []);
}

abbrev send : String → String → Option Answer
send method path = some (answer (if path =ˢ "manifests/d1.json" then 1 ∷ [] else []))

run_ingest-IsVerified_example :
    (is_object_ingested digest history empty ≡ true) ⊎ IsVerified host send digest
unfolding run_ingest ingest_usage ingest_entries parse_manifest start_ingest_run finish_ingest_run
    observe_catalog_models model_prices is_object_ingested mark_object_ingested record_usage_facts
    device_exists is_history_path parse_by_path read_jsonl parse_codex Webdav.list Webdav.get_text
    Webdav.request Webdav.get Webdav.is_digest Webdav.object_path read_entries object_of codex_rows
run_ingest-IsVerified_example = run_ingest-IsVerified host send 5 "run1" digest history empty refl
