-- ===== src/Store/Usage/Objects.antt =====
-- Which objects a database holds for ingested.
use relaydot.Prelude.{
  upsert_changes, ℕ, ◌≡◌, refl, String, true, false, ◌&&◌, ◌||◌, List, [], ◌∷◌, ◌++◌, arith, ◌=ˢ◌,
  eq_iff, ◌+◌, any, update, any-first, Bool-cases, inl, inr, after,
}
use relaydot.Store.Schema.{UsageFact, IngestedObject, Db}
use relaydot.Store.Usage.{
  is_fact, is_object, mark_object_ingested, is_object_ingested, references, upsert_fact,
  record_each, record_usage_facts,
}

any-update :
    (digest path digest' path' : String) (records now : ℕ) (rows : List IngestedObject)
    → any (is_object digest path) (
        update
          (is_object digest' path')
          (λ o. record o { records = records; ingested_at = now })
          rows)
      ≡ any (is_object digest path) rows
any-update digest path digest' path' records now [] = refl
any-update digest path digest' path' records now (o ∷ rows) =
    ground (arith, any-update digest path digest' path' records now rows)

any-append_one :
    (digest path : String) (rows : List IngestedObject) (o : IngestedObject)
    → any (is_object digest path) (rows ++ o ∷ [])
      ≡ (any (is_object digest path) rows || is_object digest path o)
any-append_one digest path [] o = ground arith
any-append_one digest path (x ∷ rows) o = ground (arith, any-append_one digest path rows o)

-- A mark adds its own object and no other.
pub is_object_ingested-mark :
    (digest path digest' path' : String) (now records : ℕ) (db : Db)
    → is_object_ingested digest path (mark_object_ingested now digest' path' records db) ≡ true
    → is_object_ingested digest path db ≡ false
    → (digest' ≡ digest) × (path' ≡ path)
unfolding is_object_ingested mark_object_ingested
is_object_ingested-mark digest path digest' path' now records db h k =
    elim (Bool-cases (any (is_object digest' path') db.objects)) [
      | inl there ↦ absurd (
          ground (
            arith,
            any-first (is_object digest path) db.objects,
            any-first (is_object digest path) (
                update (is_object digest' path')
                  (λ o. record o { records = records; ingested_at = now }) db.objects),
            any-update digest path digest' path' records now db.objects,
          ))
      | inr new ↦
          let both = appended new in
          (ground (arith, both, eq_iff digest' digest), ground (arith, both, eq_iff path' path))
    ]
  where
    appended :
        any (is_object digest' path') db.objects ≡ false
        → (digest' =ˢ digest && path' =ˢ path) ≡ true
    appended new = ground (
      arith,
      new,
      h,
      k,
      any-first (is_object digest path) db.objects,
      any-first (is_object digest path) (
          db.objects
          ++ record { digest = digest'; source_path = path'; records = records; ingested_at = now }
            ∷ []),
      any-append_one digest path db.objects
          (record { digest = digest'; source_path = path'; records = records; ingested_at = now }),
    )

record_each-objects :
    (now written : ℕ) (facts : List UsageFact) (db : Db)
    → (after (record_each now written facts) db).objects ≡ db.objects
unfolding record_each
record_each-objects now written [] db = refl
record_each-objects now written (f ∷ fs) db =
    elim (Bool-cases (references db.devices f.device_id)) [
      | inl known ↦
          rw (known, after)
            (record_each-objects now (written + upsert_changes (is_fact f.usage_fact_id) db.facts)
              fs (record db { facts = upsert_fact now f db.facts }))
      | inr unknown ↦ rw (unknown, after) refl
    ]

-- Recording facts ingests no object.
pub record_usage_facts-objects :
    (now : ℕ) (facts : List UsageFact) (db : Db)
    → (after (record_usage_facts now facts) db).objects ≡ db.objects
unfolding record_usage_facts
record_usage_facts-objects now [] db = refl
record_usage_facts-objects now (f ∷ fs) db = ground (arith, record_each-objects now 0 (f ∷ fs) db)
