-- ===== src/Store/Usage.antt =====
-- apps/web/src/lib/store.ts: usage facts, the objects they were read from, and repricing.
pub mod Reprice
pub mod Regrown
pub mod Objects
use relaydot.Prelude.{
  ℕ, ◌+◌, String, Bool, true, ◌&&◌, Option, none, some, List, [], ◌∷◌, ◌++◌, ◌=ˢ◌, if◌then◌else◌,
  is_some, any, first, select, update, changes, upsert_changes, ok, err, constraint, Exec, pure,
  transaction,
}
use relaydot.Prices.{estimate_cost}
use relaydot.Store.Schema.{UsageFact, IngestedObject, Device, PriceRates, exact, unpriced, Db}
use relaydot.Store.Enrollment.{has_id}

abbrev pub is_fact : String → UsageFact → Bool
is_fact id f = f.usage_fact_id =ˢ id

abbrev pub of_model : String → UsageFact → Bool
of_model model_id f = f.model_id =ˢ model_id

-- `device_id TEXT REFERENCES devices(id)`, with foreign keys enforced.
abbrev pub references : List Device → Option String → Bool
references devices none = true
references devices (some id) = any (has_id id) devices

-- `DO UPDATE SET` of the conflict clause: the two columns that it names.
abbrev pub overwrite_cost : UsageFact → UsageFact → UsageFact
overwrite_cost new old = record old {
  estimated_cost = new.estimated_cost;
  price_match = new.price_match;
}

abbrev pub upsert_fact : ℕ → UsageFact → List UsageFact → List UsageFact
upsert_fact now f facts =
    if any (is_fact f.usage_fact_id) facts
    then update (is_fact f.usage_fact_id) (overwrite_cost f) facts
    else facts ++ record f { ingested_at = now } ∷ []

-- The loop of `recordUsageFacts`.
pub record_each : ℕ → ℕ → List UsageFact → Exec Db ℕ
record_each now written [] db = (ok written, db)
record_each now written (f ∷ fs) db =
    let rest =
      record_each now (written + upsert_changes (is_fact f.usage_fact_id) db.facts) fs
        (record db { facts = upsert_fact now f db.facts }) in
    if references db.devices f.device_id then rest else (err constraint, db)

unfoldable pub record_usage_facts : ℕ → List UsageFact → Exec Db ℕ
unfolding record_each
record_usage_facts now [] = pure 0
record_usage_facts now (f ∷ fs) = transaction (record_each now 0 (f ∷ fs))

abbrev is_object : String → String → IngestedObject → Bool
is_object digest path o = o.digest =ˢ digest && o.source_path =ˢ path

unfoldable pub mark_object_ingested : ℕ → String → String → ℕ → Db → Db
mark_object_ingested now digest path records db = record db {
  objects =
      if any (is_object digest path) db.objects
      then update (is_object digest path) (λ o. record o { records = records; ingested_at = now })
          db.objects
      else db.objects
        ++ record { digest = digest; source_path = path; records = records; ingested_at = now }
          ∷ [];
}

unfoldable pub is_object_ingested : String → String → Db → Bool
is_object_ingested digest path db = is_some (first (is_object digest path) db.objects)

-- What `repriceModel` writes to the row of a fact.
abbrev pub priced_by : Option PriceRates → UsageFact → UsageFact → UsageFact
priced_by none row f = record f { estimated_cost = none; price_match = unpriced }
priced_by (some rates) row f = record f {
  estimated_cost = some (estimate_cost row.tokens rates);
  price_match = exact;
}

-- The loop of `repriceModel` over the rows that it selected, with its count of changes.
pub reprice_each : Option PriceRates → ℕ → List UsageFact → List UsageFact → ℕ × List UsageFact
reprice_each rates updated [] facts = (updated, facts)
reprice_each rates updated (row ∷ rows) facts =
    reprice_each rates (updated + changes (is_fact row.usage_fact_id) facts) rows
      (update (is_fact row.usage_fact_id) (priced_by rates row) facts)

unfoldable pub reprice_model : String → Option PriceRates → Db → ℕ × Db
unfolding reprice_each
reprice_model model_id rates db =
    let (updated, facts) = reprice_each rates 0 (select (of_model model_id) db.facts) db.facts in
    (updated, record db { facts = facts })
