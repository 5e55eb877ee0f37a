-- ===== src/Worker/Schedules.antt =====
-- apps/web/src/lib/store.ts and worker.ts: the schedules that a start declares, as the calls that it
-- makes of honker's scheduler, in their order. The entries that `list` returns are the names with
-- their expressions.
use relaydot.Prelude.{
  String, Bool, not, ◌&&◌, Option, none, some, List, [], ◌∷◌, ◌++◌, any, ◌=ˢ◌, if◌then◌else◌,
  starts_with,
}
use relaydot.Sources.Loading.{Loaded, loaded, unavailable, Reader, load_catalog_sources}

-- The payload of a schedule is an object with a `kind`.
pub record ScheduleSpec : Type 0 where
  pub name : String
  pub expression : String
  pub kind : String

pub data Call : Type 0 where
  add : ScheduleSpec → Call
  update : ScheduleSpec → Call
  remove : String → Call

abbrev pub is_named : String → String × String → Bool
is_named name (key, expression) = key =ˢ name

abbrev pub declares : String → ScheduleSpec → Bool
declares name spec = spec.name =ˢ name

-- `existing.get(spec.name)`: of entries with one name, the map keeps the last.
abbrev pub expression_of : String → List (String × String) → Option String
expression_of name [] = none
expression_of name ((key, expression) ∷ entries) = elim (expression_of name entries) [
  | some later ↦ some later
  | none ↦ if key =ˢ name then some expression else none
]

abbrev pub call_for : ScheduleSpec → Option String → List Call
call_for spec none = add spec ∷ []
call_for spec (some expression) =
    if not (expression =ˢ spec.expression) then update spec ∷ [] else []

-- The loop over the specs.
unfoldable pub declare : List (String × String) → List ScheduleSpec → List Call
declare existing [] = []
declare existing (spec ∷ specs) =
    call_for spec (expression_of spec.name existing) ++ declare existing specs

-- The keys of the map: each name once.
unfoldable pub names_of : List (String × String) → List String
names_of [] = []
names_of ((key, expression) ∷ entries) =
    let rest = names_of entries in if any (is_named key) entries then rest else key ∷ rest

-- The loop over the names.
unfoldable pub withdraw : List ScheduleSpec → List String → List Call
withdraw specs [] = []
withdraw specs (name ∷ names) =
    let rest = withdraw specs names in
    if starts_with name "relaydot." && not (any (declares name) specs)
    then remove name ∷ rest
    else rest

unfoldable pub register_schedules : List (String × String) → List ScheduleSpec → List Call
unfolding declare withdraw names_of
register_schedules existing specs = declare existing specs ++ withdraw specs (names_of existing)

-- `unregisterSchedule`
abbrev pub unregister_schedule : String → List Call
unregister_schedule name = remove name ∷ []

abbrev pub ingest_schedule_name : String
ingest_schedule_name = "relaydot.usage-ingest"

abbrev pub catalog_schedule_name : String
catalog_schedule_name = "relaydot.catalog-refresh"

abbrev pub catalog_spec : Loaded → List ScheduleSpec
catalog_spec (unavailable text) = []
catalog_spec (loaded sources) =
    if sources.is_scheduled
    then record {
      name = catalog_schedule_name;
      expression = sources.cron;
      kind = "catalog_refresh";
    }
      ∷ []
    else []

-- The specs that `seed` registers.
unfoldable pub seed_specs : Reader → String → String → List ScheduleSpec
seed_specs reader path ingest_schedule =
    record { name = ingest_schedule_name; expression = ingest_schedule; kind = "usage_ingest" }
    ∷ catalog_spec (load_catalog_sources reader path)
