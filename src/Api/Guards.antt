-- ===== src/Api/Guards.antt =====
-- The endpoints that serve only the administrator, and a device.
use relaydot.Prelude.{
  ℕ, ◌≡◌, refl, String, Option, none, some, List, ◌⊎◌, inl, inr, Result, ok, err, Exec, ◌>>=◌,
  after, result, Error,
}
use relaydot.Json.{Number, Json}
use relaydot.Store.Schema.{Db, Draw}
use relaydot.Sources.{CatalogSources}
use relaydot.Access.{Runtime, Config, Request, Reply, require_admin, require_device}
use relaydot.Access.Admission.{
  HasToken, HasSession, HasDevice, require_admin-passes, require_admin-keeps, require_device-passes,
  require_device-keeps,
}
use relaydot.Api.{refuse, Response, on_refusal, as_admin, as_device}
use relaydot.Api.Devices.{
  create_enrollment_token_handler, create_command_handler, heartbeat_handler,
  claim_commands_handler, acknowledge_command_handler,
}
use relaydot.Webdav.{Network}
use relaydot.Crypto.{Cipher}
use relaydot.Ingest.{Host}
use relaydot.Sources.Loading.{Reader, Feed}
use relaydot.Api.Storage.{
  save_storage_handler, test_storage_handler, delete_storage_handler, device_storage_handler,
  ingest_now_handler, storage_handler, usage_ingest_status_handler,
}
use relaydot.Api.Catalog.{catalog_handler, check_catalog_handler}
use relaydot.Api.Prices.{save_price_handler, delete_price_handler, set_catalog_status_handler}

-- The call writes nothing, and answers with the status and the error text of a guard or throws.
abbrev pub IsRefused : Exec Db Response → Db → Type 0
IsRefused call db =
    (after call db ≡ db)
    × (((reply : Reply) × (result call db ≡ ok (refuse reply)))
        ⊎ ((e : Error) × (result call db ≡ err e)))

module _ (rt : Runtime) (cfg : Config) (now : ℕ) (r : Request) (db : Db) where
  -- The call leaves the database as it is, unless the administrator asks for it.
  abbrev pub IsAdminOnly : Exec Db Response → Type 0
  IsAdminOnly call = (after call db ≡ db) ⊎ (HasToken rt cfg r ⊎ HasSession rt cfg now r db)

  continued :
      (action : Exec Db Response) (p : Result (Option Reply) × Db)
      → (p.0 ≡ ok none) ⊎ (p.1 ≡ db)
      → (p.0 ≡ ok none → HasToken rt cfg r ⊎ HasSession rt cfg now r db)
      → IsAdminOnly ((λ s. p) >>= on_refusal action)
  continued action (ok none, s) k passes = inr (passes refl)
  continued action (ok (some reply), s) (inl e) passes = inr (passes e)
  continued action (ok (some reply), s) (inr e) passes = inl e
  continued action (err x, s) (inl e) passes = inr (passes e)
  continued action (err x, s) (inr e) passes = inl e

  pub as_admin-IsAdminOnly :
      (action : Exec Db Response) → IsAdminOnly (as_admin rt cfg now r action)
  unfolding as_admin
  as_admin-IsAdminOnly action =
      continued action (require_admin rt cfg now r db) (require_admin-keeps rt cfg now r db)
        (require_admin-passes rt cfg now r db)

  -- The call writes nothing and answers with an error of the guard, or throws, unless the
  -- administrator asks for it.
  abbrev pub IsGuarded : Exec Db Response → Type 0
  IsGuarded call = IsRefused call db ⊎ (HasToken rt cfg r ⊎ HasSession rt cfg now r db)

  guarded :
      (action : Exec Db Response) (p : Result (Option Reply) × Db)
      → (p.0 ≡ ok none) ⊎ (p.1 ≡ db)
      → (p.0 ≡ ok none → HasToken rt cfg r ⊎ HasSession rt cfg now r db)
      → IsGuarded ((λ s. p) >>= on_refusal action)
  guarded action (ok none, s) k passes = inr (passes refl)
  guarded action (ok (some reply), s) (inl e) passes = inr (passes e)
  guarded action (ok (some reply), s) (inr e) passes = inl (e, inl (reply, refl))
  guarded action (err x, s) (inl e) passes = inr (passes e)
  guarded action (err x, s) (inr e) passes = inl (e, inr (x, refl))

  pub as_admin-IsGuarded : (action : Exec Db Response) → IsGuarded (as_admin rt cfg now r action)
  unfolding as_admin
  as_admin-IsGuarded action =
      guarded action (require_admin rt cfg now r db) (require_admin-keeps rt cfg now r db)
        (require_admin-passes rt cfg now r db)

module _ (rt : Runtime) (r : Request) (device_id : String) (db : Db) where
  -- The call leaves the database as it is, unless the device asks for it.
  abbrev pub IsDeviceOnly : Exec Db Response → Type 0
  IsDeviceOnly call = (after call db ≡ db) ⊎ HasDevice rt device_id r db

  continued_for :
      (action : Exec Db Response) (p : Result (Option Reply) × Db)
      → p.1 ≡ db
      → (p.0 ≡ ok none → HasDevice rt device_id r db)
      → IsDeviceOnly ((λ s. p) >>= on_refusal action)
  continued_for action (ok none, s) k passes = inr (passes refl)
  continued_for action (ok (some reply), s) k passes = inl k
  continued_for action (err x, s) k passes = inl k

  pub as_device-IsDeviceOnly :
      (action : Exec Db Response) → IsDeviceOnly (as_device rt r device_id action)
  unfolding as_device
  as_device-IsDeviceOnly action =
      continued_for action (require_device rt r device_id db)
        (require_device-keeps rt device_id r db) (require_device-passes rt device_id r db)

  -- The call writes nothing and answers with an error of the guard, or throws, unless the device asks
  -- for it.
  abbrev pub IsHeld : Exec Db Response → Type 0
  IsHeld call = IsRefused call db ⊎ HasDevice rt device_id r db

  held :
      (action : Exec Db Response) (p : Result (Option Reply) × Db)
      → p.1 ≡ db
      → (p.0 ≡ ok none → HasDevice rt device_id r db)
      → IsHeld ((λ s. p) >>= on_refusal action)
  held action (ok none, s) k passes = inr (passes refl)
  held action (ok (some reply), s) k passes = inl (k, inl (reply, refl))
  held action (err x, s) k passes = inl (k, inr (x, refl))

  pub as_device-IsHeld : (action : Exec Db Response) → IsHeld (as_device rt r device_id action)
  unfolding as_device
  as_device-IsHeld action =
      held action (require_device rt r device_id db) (require_device-keeps rt device_id r db)
        (require_device-passes rt device_id r db)

-- Enrollment tokens, commands, prices and statuses: a request changes the database only if it has the
-- administrator's token, or comes from the same origin with the cookie of a live session.
pub admin_handlers-IsAdminOnly :
    (rt : Runtime) (show show_whole : Number → String) (stringify : Json → String)
    (parse : String → Option Json) (utf16_length : String → ℕ) (sources : Option CatalogSources)
    (cfg : Config) (now : ℕ) (d : Draw) (r : Request) (id : String) (db : Db)
    → IsAdminOnly rt cfg now r db (create_enrollment_token_handler rt cfg now d r)
      × IsAdminOnly rt cfg now r db
          (create_command_handler rt stringify parse utf16_length cfg now d r id)
      × IsAdminOnly rt cfg now r db (save_price_handler show show_whole rt sources cfg now r)
      × IsAdminOnly rt cfg now r db (delete_price_handler rt cfg now r id)
      × IsAdminOnly rt cfg now r db (set_catalog_status_handler rt cfg now r id)
unfolding create_enrollment_token_handler create_command_handler save_price_handler
    delete_price_handler set_catalog_status_handler
admin_handlers-IsAdminOnly rt show show_whole stringify parse utf16_length sources cfg now d r id
      db =
    (
      as_admin-IsAdminOnly rt cfg now r db _,
      as_admin-IsAdminOnly rt cfg now r db _,
      as_admin-IsAdminOnly rt cfg now r db _,
      as_admin-IsAdminOnly rt cfg now r db _,
      as_admin-IsAdminOnly rt cfg now r db _,
    )

-- The storage backend, its credential, the ingest and the catalog's page and check: a request writes
-- nothing and is answered with an error, or throws, unless it has the administrator's token, or comes
-- from the same origin with the cookie of a live session, and one for the credential unless it
-- carries the token of the device, which is not revoked.
pub storage_handlers-IsGuarded :
    (rt : Runtime) (cipher : Cipher) (network : Network) (host : Host) (reader : Reader)
    (feed : Feed) (secret_key : Option (List ℕ)) (path : Option String) (cfg : Config)
    (now later : ℕ) (d : Draw) (iv : List ℕ) (r : Request) (id : String) (db : Db)
    → IsHeld rt r id db (device_storage_handler rt cipher secret_key r id)
      × IsGuarded rt cfg now r db (storage_handler rt cfg now r)
      × IsGuarded rt cfg now r db
          (save_storage_handler rt cipher network host secret_key cfg now d later iv r)
      × IsGuarded rt cfg now r db
          (test_storage_handler rt cipher network host secret_key cfg now later r)
      × IsGuarded rt cfg now r db (delete_storage_handler rt cfg now d r)
      × IsGuarded rt cfg now r db (usage_ingest_status_handler rt cfg now r)
      × IsGuarded rt cfg now r db
          (ingest_now_handler rt cipher network host secret_key cfg now id r)
      × IsGuarded rt cfg now r db (catalog_handler rt reader path cfg now r)
      × IsGuarded rt cfg now r db
          (check_catalog_handler rt reader feed path cfg now later later id r)
unfolding save_storage_handler test_storage_handler delete_storage_handler ingest_now_handler
    check_catalog_handler device_storage_handler storage_handler usage_ingest_status_handler
    catalog_handler
storage_handlers-IsGuarded rt cipher network host reader feed secret_key path cfg now later d iv r
      id db =
    (
      as_device-IsHeld rt r id db _,
      as_admin-IsGuarded rt cfg now r db _,
      as_admin-IsGuarded rt cfg now r db _,
      as_admin-IsGuarded rt cfg now r db _,
      as_admin-IsGuarded rt cfg now r db _,
      as_admin-IsGuarded rt cfg now r db _,
      as_admin-IsGuarded rt cfg now r db _,
      as_admin-IsGuarded rt cfg now r db _,
      as_admin-IsGuarded rt cfg now r db _,
    )

-- Heartbeats, claims and acknowledgements of a device: a request changes the database only if its
-- bearer token is that of the device, and the device is not revoked.
pub device_handlers-IsDeviceOnly :
    (rt : Runtime) (stringify : Json → String) (parse : String → Option Json)
    (to_number : String → Option ℕ) (now : ℕ) (d : Draw) (r : Request)
    (device_id command_id : String) (db : Db)
    → IsDeviceOnly rt r device_id db (heartbeat_handler rt now r device_id)
      × IsDeviceOnly rt r device_id db
          (claim_commands_handler rt stringify parse to_number now r device_id)
      × IsDeviceOnly rt r device_id db
          (acknowledge_command_handler rt stringify parse d r device_id command_id)
unfolding heartbeat_handler claim_commands_handler acknowledge_command_handler
device_handlers-IsDeviceOnly rt stringify parse to_number now d r device_id command_id db = (
  as_device-IsDeviceOnly rt r device_id db _,
  as_device-IsDeviceOnly rt r device_id db _,
  as_device-IsDeviceOnly rt r device_id db _,
)
