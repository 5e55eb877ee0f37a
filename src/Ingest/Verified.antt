-- ===== src/Ingest/Verified.antt =====
-- An object counts as ingested only when its bytes were read and hash to its digest.
use relaydot.Prelude.{
  ℕ, ◌≡◌, refl, sym, subst, ◌∙◌, String, Bool, true, false, not, Option, none, some, List, [], ◌∷◌,
  ◌⊎◌, inl, inr, arith, ◌=ˢ◌, eq_iff, Bool-cases, Result-cases, Result, ok, err, after, any, ◌>>=◌,
  length, if◌then◌else◌, ◌||◌, ends_with, ℤ, pos, map,
}
use relaydot.Store.Schema.{ModelPrice, Db}
use relaydot.Store.Usage.{is_object_ingested, mark_object_ingested, record_usage_facts}
use relaydot.Store.Usage.Objects.{is_object_ingested-mark, record_usage_facts-objects}
use relaydot.Transcripts.Jsonl.{is_history_path, parse_by_path}
use relaydot.Store.Enrollment.{device_exists}
use relaydot.Transcripts.{ParseReport}
use relaydot.Webdav
use relaydot.Webdav.{WebdavEntry, Answer}
use relaydot.Ingest.Runs
use relaydot.Ingest.Runs.{from_listing, ingest_usage, run_with, run_ingest}
use relaydot.Store.Catalog.{
  observe_catalog_models, start_ingest_run, finish_ingest_run, model_prices,
}
use relaydot.Ingest.{
  max_object_bytes, empty_report, Host, PublishedEntry, Progress, fact_row, write_facts,
  read_object, object_of, ingest_item, ingest_items, ingest_entry, ingest_entries, recorded,
  parsed_as, fetched, with_manifest, with_text, count_read, count_seen, count_large, count_manifest,
  counted, failed, mismatch, is_larger, time_or, parse_manifest, DeviceManifest,
}

-- The object store answers a request for the digest's path with bytes that hash to the digest.
abbrev pub IsVerified : Host → (String → String → Option Answer) → String → Type 0
IsVerified host send digest =
    (path : String) × (bytes : List ℕ) × (Webdav.object_path digest ≡ ok path)
    × (Webdav.get send host.decode path ≡ ok (some bytes))
    × (host.sha256_bytes bytes ≡ digest)

module _ (host : Host) (send : String → String → Option Answer) (digest path : String)
    (before : Db) where
  -- The object was ingested before, or is verified now.
  abbrev Sound : Db → Type 0
  Sound db =
      is_object_ingested digest path db ≡ true
      → (is_object_ingested digest path before ≡ true) ⊎ IsVerified host send digest

  same_objects :
      (old new : Db)
      → new.objects ≡ old.objects
      → is_object_ingested digest path new ≡ is_object_ingested digest path old
  unfolding is_object_ingested
  same_objects old new e = rw e refl

  if-Sound : (b : Bool) (p q : Progress) → Sound p.db → Sound q.db → Sound (if b then p else q).db
  if-Sound true p q s t = s
  if-Sound false p q s t = t

  moves : (old new : Progress) → new ≡ old → Sound old.db → Sound new.db
  moves old new e s = subst (λ q. Sound q.db) (sym e) s

  keeps : (old new : Db) → new.objects ≡ old.objects → Sound old → Sound new
  keeps old new e s h = s (sym (same_objects old new e) ∙ h)

  marked :
      (now records : ℕ) (item : PublishedEntry) (db : Db)
      → IsVerified host send item.digest
      → Sound db
      → Sound (mark_object_ingested now item.digest item.path records db)
  marked now records item db v s h = elim (Bool-cases (is_object_ingested digest path db)) [
    | inl there ↦ s there
    | inr new ↦ inr (
        subst (IsVerified host send)
          (is_object_ingested-mark digest path item.digest item.path now records db h new).0 v)
  ]

  module _ (now : ℕ) (clock : ℤ) (limit : ℕ) (prices : List ModelPrice) where
    recorded-Sound :
        (item : PublishedEntry) (parsed : ParseReport) (p : Progress) (r : Result ℕ × Db)
        → IsVerified host send item.digest
        → Sound r.1
        → Sound (recorded host send now clock limit prices item parsed p r).db
    recorded-Sound item parsed p (err e, db) v s = s
    recorded-Sound item parsed p (ok written, db) v s = marked now (length parsed.facts) item db v s

    write_facts-Sound :
        (device_id : Option String) (item : PublishedEntry) (parsed : ParseReport) (p : Progress)
        → IsVerified host send item.digest
        → Sound p.db
        → Sound (write_facts host send now clock limit prices device_id item parsed p).db
    unfolding write_facts
    write_facts-Sound device_id item parsed p v s =
        let rows = map (fact_row prices device_id item.path) parsed.facts in
        recorded-Sound item parsed (counted host send now clock limit prices parsed p)
          (record_usage_facts now rows p.db) v
          (keeps p.db (record_usage_facts now rows p.db).1
            (record_usage_facts-objects now rows p.db) s)

    parsed_as-Sound :
        (device_id : Option String) (item : PublishedEntry) (p : Progress)
        (report : Option ParseReport)
        → IsVerified host send item.digest
        → Sound p.db
        → Sound (parsed_as host send now clock limit prices device_id item p report).db
    parsed_as-Sound device_id item p none v s = s
    parsed_as-Sound device_id item p (some parsed) v s =
        write_facts-Sound device_id item parsed (count_read host send now clock limit prices p) v s

    read_object-Sound :
        (device_id : Option String) (item : PublishedEntry) (file : String) (bytes : List ℕ)
        (p : Progress)
        → Webdav.object_path item.digest ≡ ok file
        → Webdav.get send host.decode file ≡ ok (some bytes)
        → Sound p.db
        → Sound (read_object host send now clock limit prices device_id item bytes p).db
    unfolding read_object
    read_object-Sound device_id item file bytes p f g s =
        if-verified (host.sha256_bytes bytes =ˢ item.digest) refl
      where
        report : Option ParseReport
        report =
            parse_by_path host.parse host.sha256 host.parse_date host.not_after host.stringify_event
              item.path (host.decode bytes) (time_or clock (host.as_time item.modified_at))

        if-verified :
            (b : Bool)
            → (host.sha256_bytes bytes =ˢ item.digest) ≡ b
            → Sound
                (if b
                  then parsed_as host send now clock limit prices device_id item p report
                  else failed
                      (mismatch host send now clock limit prices item (host.sha256_bytes bytes))
                      p).db
        if-verified true e =
            parsed_as-Sound device_id item p report
              (file, bytes, f, g, (eq_iff (host.sha256_bytes bytes) item.digest).0 e) s
        if-verified false e = s

    fetched-Sound :
        (device_id : Option String) (item : PublishedEntry) (p : Progress)
        (r : Result (Option (List ℕ)))
        → object_of host send now clock limit prices item ≡ r
        → Sound p.db
        → Sound (fetched host send now clock limit prices device_id item p r).db
    unfolding object_of
    fetched-Sound device_id item p (err e) q s = s
    fetched-Sound device_id item p (ok none) q s = s
    fetched-Sound device_id item p (ok (some bytes)) q s =
        elim (Result-cases (Webdav.object_path item.digest)) [
          | inr (e, f) ↦ absurd (ground arith)
          | inl (file, f) ↦ read_object-Sound device_id item file bytes p f (ground arith) s
        ]

    ingest_item-Sound :
        (device_id : Option String) (item : PublishedEntry) (p : Progress)
        → Sound p.db
        → Sound (ingest_item host send now clock limit prices device_id item p).db
    unfolding ingest_item
    ingest_item-Sound device_id item p s =
        let seen = count_seen host send now clock limit prices p in
        let large = count_large host send now clock limit prices seen in
        let rest =
          fetched host send now clock limit prices device_id item seen
            (object_of host send now clock limit prices item) in
        let sized = if is_larger limit (host.to_number item.size) then large else rest in
        if-Sound (not (is_history_path item.path)) p
          (if is_object_ingested item.digest item.path p.db then seen else sized) s
          (if-Sound (is_object_ingested item.digest item.path p.db) seen sized s (
            if-Sound (is_larger limit (host.to_number item.size)) large rest s (
              fetched-Sound device_id item seen (object_of host send now clock limit prices item)
                refl s)))

    ingest_items-Sound :
        (device_id : Option String) (items : List PublishedEntry) (p : Progress)
        → Sound p.db
        → Sound (ingest_items host send now clock limit prices device_id items p).db
    unfolding ingest_items
    ingest_items-Sound device_id [] p s = s
    ingest_items-Sound device_id (item ∷ items) p s =
        ingest_items-Sound device_id items
          (ingest_item host send now clock limit prices device_id item p)
          (ingest_item-Sound device_id item p s)

    with_manifest-Sound :
        (href : String) (p : Progress) (m : Option DeviceManifest)
        → Sound p.db
        → Sound (with_manifest host send now clock limit prices href p m).db
    with_manifest-Sound href p none s = s
    with_manifest-Sound href p (some m) s =
        ingest_items-Sound (if device_exists m.device_id p.db then some m.device_id else none)
          m.entries (count_manifest host send now clock limit prices p) s

    with_text-Sound :
        (href : String) (p : Progress) (r : Result (Option String))
        → Sound p.db
        → Sound (with_text host send now clock limit prices href p r).db
    with_text-Sound href p (err e) s = s
    with_text-Sound href p (ok none) s = s
    with_text-Sound href p (ok (some text)) s =
        with_manifest-Sound href p (parse_manifest host.parse text) s

    ingest_entry-Sound :
        (entry : WebdavEntry) (p : Progress)
        → Sound p.db
        → Sound (ingest_entry host send now clock limit prices entry p).db
    unfolding ingest_entry
    ingest_entry-Sound entry p s =
        if-Sound (entry.is_directory || not (ends_with entry.name ".json")) p
          (with_text host send now clock limit prices entry.href p
            (Webdav.get_text send host.decode entry.href))
          s (with_text-Sound entry.href p (Webdav.get_text send host.decode entry.href) s)

    ingest_entries-Sound :
        (entries : List WebdavEntry) (p : Progress)
        → Sound p.db
        → Sound (ingest_entries host send now clock limit prices entries p).db
    unfolding ingest_entries
    ingest_entries-Sound [] p s = s
    ingest_entries-Sound (entry ∷ entries) p s =
        ingest_entries-Sound entries (ingest_entry host send now clock limit prices entry p)
          (ingest_entry-Sound entry p s)

  start_ingest_run-objects :
      (now : ℕ) (id : String) (db : Db) → (start_ingest_run now id db).1.objects ≡ db.objects
  unfolding start_ingest_run
  start_ingest_run-objects now id db = elim (Bool-cases (any (λ r. r.id =ˢ id) db.runs)) [
    | inl clash ↦ rw clash refl
    | inr new ↦ rw new refl
  ]

  listed-Sound :
      (now : ℕ) (id : String) (db : Db) (r : Result (List WebdavEntry))
      → Sound db
      → Sound (Runs.recorded host now id (from_listing host send now r db)).1
  unfolding finish_ingest_run observe_catalog_models ingest_entries is_object_ingested
  listed-Sound now id db (err e) s = s
  listed-Sound now id db (ok entries) s =
      ingest_entries-Sound now (pos now) max_object_bytes (model_prices db) entries
        (record { report = empty_report; observed = []; db = db }) s

  continued-Sound :
      (now : ℕ) (r : Result String × Db)
      → Sound r.1
      → Sound (((λ (s : Db). r) >>= run_with host now (some send)) before).1
  unfolding ingest_usage
  continued-Sound now (err e, db) s = s
  continued-Sound now (ok id, db) s =
      listed-Sound now id db (Webdav.list send host.decode "manifests") s

-- An ingest holds an object for ingested only when it was ingested before, or the object store
-- answers the request for its path with bytes that hash to its digest: bytes of another content are
-- never marked, whatever errors occur on the way.
pub run_ingest-IsVerified :
    (host : Host) (send : String → String → Option Answer) (now : ℕ) (id digest path : String)
    (db : Db)
    → is_object_ingested digest path (after (run_ingest host now id (some send)) db) ≡ true
    → (is_object_ingested digest path db ≡ true) ⊎ IsVerified host send digest
unfolding run_ingest
run_ingest-IsVerified host send now id digest path db h =
    continued-Sound host send digest path db now (start_ingest_run now id db)
      (keeps host send digest path db db (start_ingest_run now id db).1
        (start_ingest_run-objects host send digest path db now id db) inl)
      h
