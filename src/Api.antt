-- ===== src/Api.antt =====
-- apps/web/src/lib/api.ts: what the handlers of the endpoints share. A handler is a computation over
-- the database that returns a response; what it throws, the framework answers.
pub mod Guards
pub mod Devices
pub mod Rates
mod Tests
pub mod Prices
pub mod SignIn
pub mod Storage
pub mod Catalog
use relaydot.Prelude.{
  ℕ, String, Bool, Option, none, some, List, ◌+ˢ◌, Result, ok, err, Error, authentication,
  not_found, validation, Exec, pure, lift, ◌>>=◌,
}
use relaydot.Json.{Json, obj, Row, get, as_text}
use relaydot.Store.Schema.{
  Db, ModelPrice, CatalogModel, CatalogStatus, RunStatus, CatalogCheck, IngestRun,
}
use relaydot.Store.Enrollment.{IssuedToken, Credentials, ListedDevice}
use relaydot.Store.Commands.{Command}
use relaydot.Webdav.{WebdavConfig}
use relaydot.Ingest.{IngestReport}
use relaydot.Sources.{CatalogSources}
use relaydot.Sources.Refresh.{CheckReport}
use relaydot.Access.{Runtime, Config, Request, Reply, require_admin, require_device}

-- The configured backend without its password, and the outcome of a probe.
pub record StorageView : Type 0 where
  pub base_url : String
  pub username : String
  pub updated_at : ℕ
  pub verified_at : Option ℕ
  pub last_error : Option String

pub record Probe : Type 0 where
  pub ok : Bool
  pub verified_at : Option ℕ
  pub error : Option String

-- The JSON that a handler answers with, by its shape.
pub data Content : Type 0 where
  error : String → Content
  requires_confirmation : String → Content
  signed_in : ℕ → Content
  signed_out : Content
  issued : IssuedToken → Content
  credentials : Credentials → Content
  devices : List ListedDevice → Content
  last_seen : ℕ → Content
  command : Command → Content
  commands : List Command → Content
  approved : String → Content
  withdrawn : String → Content
  catalog_status : String → CatalogStatus → Content
  storage_absent : Content
  storage : StorageView → Content
  storage_saved : String → Probe → Content
  probe : Probe → Content
  storage_credential : WebdavConfig → Content
  ingest_status : Bool → List IngestRun → Content
  ingest_report : IngestReport → RunStatus → Content
  catalog :
      Option CatalogSources
      → Option String
      → List CatalogModel
      → List ModelPrice
      → List CatalogCheck
      → Content
  check_report : CheckReport → Content

-- The status, the content, and the cookie that it sets.
pub record Response : Type 0 where
  pub status : ℕ
  pub content : Content
  pub set_cookie : Option String

abbrev pub json : Content → ℕ → Response
json content status = record { status = status; content = content; set_cookie = none }

abbrev pub refuse : Reply → Response
refuse reply = json (error reply.error) reply.status

abbrev pub answered : Result Response → Result Response
answered (ok r) = ok r
answered (err (validation m)) = ok (json (error m) 422)
answered (err (authentication m)) = ok (json (error m) 401)
answered (err (not_found m)) = ok (json (error m) 404)
answered (err e) = err e

-- What was written before the throw stays written.
unfoldable pub handle : Exec Db Response → Exec Db Response
handle action db = let (r, after) = action db in (answered r, after)

abbrev pub object_of : Option Json → Result Row
object_of none = err (validation "request body must be valid JSON")
object_of (some (obj body)) = ok body
object_of (some _) = err (validation "request body must be an object")

abbrev pub body_object : Request → Exec Db Row
body_object r = lift (object_of r.body)

abbrev pub text_or_error : String → Option String → Result String
text_or_error field none = err (validation (field +ˢ " must be a non-empty string"))
text_or_error field (some value) = ok value

abbrev pub require_string : Row → String → Exec Db String
require_string body field = lift (text_or_error field (as_text (get field body)))

abbrev pub on_refusal : Exec Db Response → Option Reply → Exec Db Response
on_refusal action none = action
on_refusal action (some reply) = pure (refuse reply)

module _ (rt : Runtime) where
  -- The first lines of a handler for the administrator, and of one for a device.
  unfoldable pub as_admin : Config → ℕ → Request → Exec Db Response → Exec Db Response
  as_admin cfg now r action = do
    unauthorized ← require_admin rt cfg now r
    on_refusal action unauthorized

  unfoldable pub as_device : Request → String → Exec Db Response → Exec Db Response
  as_device r device_id action = do
    unauthorized ← require_device rt r device_id
    on_refusal action unauthorized
