-- ===== src/Store/Schema.antt =====
-- The rows of apps/web/src/lib/types.ts and the tables of apps/web/src/lib/migrations.ts. A table
-- is the list of its rows in the order of insertion; `null` is `none`. The constraints of the
-- schema that a statement of the program can violate stand in the statement's model.
use relaydot.Prelude.{
  Exec, transaction, modify, ◌>>=◌, ◌>>◌, ◌≡◌, refl, ◌⊎◌, inl, inr, true, false, Bool-cases, ℕ, ℤ,
  String, Bool, ◌&&◌, ◌||◌, Option, none, some, List, [], ◌∷◌, ◌++◌, any, ◌=ˢ◌, if◌then◌else◌,
  constraint, err,
}
use relaydot.Prelude

pub data CommandType : Type 0 where
  sync update_agent reload_policy collect_diagnostics : CommandType

pub data CommandStatus : Type 0 where
  pending claimed succeeded failed : CommandStatus

pub record EnrollmentToken : Type 0 where
  pub id : String
  pub token_hash : String
  pub created_at : ℕ
  pub expires_at : ℕ
  pub consumed_at : Option ℕ
  pub consumed_by : Option String

pub record Device : Type 0 where
  pub id : String
  pub name : String
  pub platform : String
  pub agent_version : String
  pub public_key : Option String
  pub token_hash : String
  pub enrolled_at : ℕ
  pub last_seen_at : ℕ
  pub revoked_at : Option ℕ

pub record CommandRow : Type 0 where
  pub id : String
  pub device_id : String
  pub type : CommandType
  pub payload_json : String
  pub idempotency_key : String
  pub status : CommandStatus
  pub created_at : ℕ
  pub claimed_at : Option ℕ
  pub acked_at : Option ℕ
  pub result_json : Option String
  pub error : Option String

-- `details_json` is kept as the object whose text it is.
pub record AuditEvent : Type 0 where
  pub id : String
  pub action : String
  pub resource_type : String
  pub resource_id : String
  pub details : List (String × String)
  pub created_at : ℕ

pub record AdminSession : Type 0 where
  pub id : String
  pub token_hash : String
  pub created_at : ℕ
  pub expires_at : ℕ
  pub last_seen_at : ℕ
  pub revoked_at : Option ℕ

-- `id` is 1 and `kind` is 'webdav' by the table's checks.
pub record StorageBackend : Type 0 where
  pub base_url : String
  pub username : String
  pub password_encrypted : String
  pub created_at : ℕ
  pub updated_at : ℕ
  pub verified_at : Option ℕ
  pub last_error : Option String

pub record TokenCounts : Type 0 where
  pub input_uncached : ℕ
  pub cache_write_5m : ℕ
  pub cache_write_1h : ℕ
  pub cache_write_other : ℕ
  pub cache_read : ℕ
  pub output : ℕ

pub data PriceMatch : Type 0 where
  exact unpriced : PriceMatch

pub record UsageFact : Type 0 where
  pub usage_fact_id : String
  pub device_id : Option String
  pub provider : String
  pub session_id : String
  pub model_id : String
  pub occurred_at : ℤ
  pub tokens : TokenCounts
  pub reasoning_output : ℕ
  pub estimated_cost : Option ℕ
  pub price_match : PriceMatch
  pub source_path : String
  pub ingested_at : ℕ

pub record IngestedObject : Type 0 where
  pub digest : String
  pub source_path : String
  pub records : ℕ
  pub ingested_at : ℕ

-- microUSD per million tokens.
pub record PriceRates : Type 0 where
  pub input_uncached : ℕ
  pub cache_write_5m : ℕ
  pub cache_write_1h : ℕ
  pub cache_write_other : ℕ
  pub cache_read : ℕ
  pub output : ℕ

pub record ModelPrice : Type 0 where
  pub model_id : String
  pub provider : String
  pub display_name : String
  pub rates : PriceRates
  pub updated_at : ℕ
  pub source_url : String
  pub approved_by : String
  pub effective_date : String

pub data CatalogStatus : Type 0 where
  needs_price priced ignored : CatalogStatus

pub data Origin : Type 0 where
  usage official_source operator : Origin

pub record CatalogModel : Type 0 where
  pub model_id : String
  pub provider : String
  pub display_name : String
  pub origin : Origin
  pub source_url : String
  pub first_seen_at : ℕ
  pub last_seen_at : ℕ
  pub status : CatalogStatus

pub data RunStatus : Type 0 where
  ok partial failed skipped : RunStatus

pub record CatalogCheck : Type 0 where
  pub id : String
  pub started_at : ℕ
  pub finished_at : Option ℕ
  pub status : RunStatus
  pub discovered : ℕ
  pub added : ℕ
  pub detail : String

pub record IngestRun : Type 0 where
  pub id : String
  pub started_at : ℕ
  pub finished_at : Option ℕ
  pub status : RunStatus
  pub manifests : ℕ
  pub objects_seen : ℕ
  pub objects_read : ℕ
  pub facts_written : ℕ
  pub detail : String

-- A row of `_honker_live` for the program's queue: waiting or claimed, and not yet done.
pub record Job : Type 0 where
  pub kind : String
  pub fields : List (String × String)
  pub max_attempts : ℕ

pub record Db : Type 0 where
  pub tokens : List EnrollmentToken
  pub devices : List Device
  pub sessions : List AdminSession
  pub commands : List CommandRow
  pub audit_events : List AuditEvent
  pub jobs : List Job
  pub backend : Option StorageBackend
  pub facts : List UsageFact
  pub objects : List IngestedObject
  pub prices : List ModelPrice
  pub models : List CatalogModel
  pub checks : List CatalogCheck
  pub runs : List IngestRun

-- The tables as the migrations create them.
abbrev pub empty : Db
empty = record {
  tokens = [];
  devices = [];
  sessions = [];
  commands = [];
  audit_events = [];
  jobs = [];
  backend = none;
  facts = [];
  objects = [];
  prices = [];
  models = [];
  checks = [];
  runs = [];
}

-- What one call draws from the clock and from the random source: `this.now()`, `randomUUID()`,
-- `createToken()`, and the id and time of the audit event that it writes.
pub record Draw : Type 0 where
  pub now : ℕ
  pub id : String
  pub token : String
  pub audit_id : String
  pub audit_now : ℕ

abbrev stored : Db → Db → Bool → Prelude.Result (Unit {0}) × Db
stored before written true = (err constraint, before)
stored before written false = (Prelude.ok tt, written)

-- `INSERT INTO`: `rows` reads the table and `put` writes it. A row that clashes with one that is
-- there, by `PRIMARY KEY` or `UNIQUE`, makes the statement throw a `SqliteError`.
abbrev pub insert_into {ℓ} :
    {A : Type ℓ} → (Db → List A) → (Db → List A → Db) → (A → Bool) → A → Exec Db (Unit {0})
insert_into rows put clash row db = stored db (put db (rows db ++ row ∷ [])) (any clash (rows db))

-- An insert and a write to other tables in one transaction, and what comes after it: the insert
-- clashes and nothing happens, or all of it does.
stored_cases :
    {B : Type 0} (f : Db → Db) (k : Exec Db B) (db written : Db) (b : Bool)
    → (transaction ((λ s. stored s written b) >> modify f) >>= λ _. k) db
      ≡ (if b then (err constraint, db) else k (f written))
stored_cases f k db written true = refl
stored_cases f k db written false = refl

pub insert_into-cases :
    {A B : Type 0} (rows : Db → List A) (put : Db → List A → Db) (clash : A → Bool) (row : A)
    (f : Db → Db) (k : Exec Db B) (db : Db)
    → (transaction (insert_into rows put clash row >> modify f) >>= λ _. k) db
      ≡ (if any clash (rows db) then (err constraint, db) else k (f (put db (rows db ++ row ∷ []))))
insert_into-cases rows put clash row f k db =
    stored_cases f k db (put db (rows db ++ row ∷ [])) (any clash (rows db))

abbrev pub same_event : String → String → String → String → AuditEvent → Bool
same_event id action resource_type resource_id e =
    e.id =ˢ id
    || (e.action =ˢ action && (e.resource_type =ˢ resource_type && e.resource_id =ˢ resource_id))

-- `audit`: `INSERT OR IGNORE`, so an event whose id, or whose action and resource, is there already
-- is dropped.
unfoldable pub audit : Draw → String → String → String → List (String × String) → Db → Db
audit d action resource_type resource_id details db = record db {
  audit_events =
      if any (same_event d.audit_id action resource_type resource_id) db.audit_events
      then db.audit_events
      else db.audit_events
        ++ record {
          id = d.audit_id;
          action = action;
          resource_type = resource_type;
          resource_id = resource_id;
          details = details;
          created_at = d.audit_now;
        }
          ∷ [];
}
