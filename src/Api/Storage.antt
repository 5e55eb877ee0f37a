-- ===== src/Api/Storage.antt =====
-- apps/web/src/lib/api.ts: the shared WebDAV backend, its credential for the devices, and the ingest.
-- `now` is the time of the guard; `probed_at` and `iv` are what the probe reads from the clock and
-- encryptSecret from the random source. `host.message` is the text of an error.
pub mod Handout
mod Tests
use relaydot.Prelude.{
  ℕ, String, true, false, Option, none, some, List, is_some, Result, ok, err, Error, validation,
  Exec, pure, lift, gets, ◌>>=◌, ◌>>◌, modify,
}
use relaydot.Prelude.Results.{◌>>◌ as ◌then◌}
use relaydot.Json.{get}
use relaydot.Store.Schema.{StorageBackend, Db, Draw}
use relaydot.Store.Storage.{
  save_storage_backend, storage_backend, record_storage_probe, delete_storage_backend,
}
use relaydot.Store.Catalog.{ingest_runs}
use relaydot.Webdav.{
  WebdavConfig, WebdavEntry, Answer, Network, normalize_base_url, webdav_client, ensure_collection,
  list,
}
use relaydot.Crypto.{Cipher, encrypt_secret, resolve_storage}
use relaydot.Ingest.{Host}
use relaydot.Ingest.Runs.{run_ingest}
use relaydot.Access.{Runtime, Config, Request}
use relaydot.Api.{
  StorageView, Probe, error, storage_absent, storage, storage_saved, probe, storage_credential,
  ingest_status, ingest_report, Response, json, handle, body_object, require_string, as_admin,
  as_device,
}

abbrev view_of : Option StorageBackend → Response
view_of none = json storage_absent 200
view_of (some b) =
    json
      (storage (record {
        base_url = b.base_url;
        username = b.username;
        updated_at = b.updated_at;
        verified_at = b.verified_at;
        last_error = b.last_error;
      }))
      200

abbrev no_backend : Response
no_backend = json (error "no storage backend is configured") 409

abbrev pub handed_out : Option WebdavConfig → Response
handed_out none = no_backend
handed_out (some c) = json (storage_credential c) 200

-- `backend?.verified_at ?? null`.
abbrev verified_of : Option StorageBackend → Option ℕ
verified_of none = none
verified_of (some b) = b.verified_at

abbrev pub valid_url : Host → Result String → Result String
valid_url host (ok url) = ok url
valid_url host (err e) = err (validation (host.message e))

abbrev key_of : Option (List ℕ) → Result (List ℕ)
key_of none =
    err (validation "controller secret key is unavailable; cannot store the WebDAV password")
key_of (some key) = ok key

module _ (cipher : Cipher) (network : Network) (host : Host) (secret_key : Option (List ℕ)) where
  -- The requests of a probe.
  unfoldable pub probe_requests : (String → String → Option Answer) → Result (List WebdavEntry)
  probe_requests send =
      ensure_collection send host.decode "objects"
      then (ensure_collection send host.decode "manifests" then list send host.decode "")

  abbrev pub recorded : ℕ → Result (List WebdavEntry) → Exec Db Probe
  recorded now (ok entries) db =
      let after = record_storage_probe now true none db in
      (
        ok (record { ok = true; verified_at = verified_of (storage_backend after); error = none }),
        after,
      )
  recorded now (err e) db = (
    ok (record { ok = false; verified_at = none; error = some (host.message e) }),
    record_storage_probe now false (some (host.message e)) db,
  )

  -- The constructor of the client stands outside the `try`.
  abbrev pub probe_client : ℕ → Result (String → String → Option Answer) → Exec Db Probe
  probe_client now (err e) db = (err e, db)
  probe_client now (ok send) db = recorded now (probe_requests send) db

  abbrev pub probe_config : ℕ → Option WebdavConfig → Exec Db Probe
  probe_config now none db = (
    ok (record { ok = false; verified_at = none; error = some "no storage backend configured" }),
    db,
  )
  probe_config now (some c) db = probe_client now (webdav_client network c) db

  unfoldable pub probe_storage : ℕ → Exec Db Probe
  probe_storage now db = probe_config now (resolve_storage cipher db secret_key) db

  -- What `saveStorage` hands to `handle`.
  unfoldable pub save_backend : Draw → ℕ → List ℕ → Request → Exec Db Response
  save_backend d probed_at iv r = do
    body ← body_object r
    raw ← require_string body "base_url"
    username ← require_string body "username"
    password ← require_string body "password"
    base_url ← lift (valid_url host (normalize_base_url network raw))
    key ← lift (key_of secret_key)
    _ ← modify (save_storage_backend d base_url username (encrypt_secret cipher iv password key))
    outcome ← probe_storage probed_at
    pure (json (storage_saved base_url outcome) 200)

module _ (rt : Runtime) where
  unfoldable pub storage_handler : Config → ℕ → Request → Exec Db Response
  storage_handler cfg now r = as_admin rt cfg now r (gets (λ db. view_of (storage_backend db)))

  unfoldable pub delete_storage_handler : Config → ℕ → Draw → Request → Exec Db Response
  delete_storage_handler cfg now d r =
      as_admin rt cfg now r (modify (delete_storage_backend d) >> pure (json storage_absent 200))

  unfoldable pub usage_ingest_status_handler : Config → ℕ → Request → Exec Db Response
  usage_ingest_status_handler cfg now r =
      as_admin rt cfg now r
        (gets (λ db. json (ingest_status (is_some (storage_backend db)) (ingest_runs 5 db)) 200))

  unfoldable pub device_storage_handler :
      Cipher → Option (List ℕ) → Request → String → Exec Db Response
  device_storage_handler cipher secret_key r device_id =
      as_device rt r device_id (gets (λ db. handed_out (resolve_storage cipher db secret_key)))

  module _ (cipher : Cipher) (network : Network) (host : Host) (secret_key : Option (List ℕ)) where
    unfoldable pub save_storage_handler :
        Config → ℕ → Draw → ℕ → List ℕ → Request → Exec Db Response
    save_storage_handler cfg now d probed_at iv r =
        as_admin rt cfg now r
          (handle (save_backend cipher network host secret_key d probed_at iv r))

    unfoldable pub test_storage_handler : Config → ℕ → ℕ → Request → Exec Db Response
    test_storage_handler cfg now probed_at r = as_admin rt cfg now r (
        handle (do
          outcome ← probe_storage cipher network host secret_key probed_at
          pure (json (probe outcome) 200)))

    abbrev ingested : ℕ → String → Option WebdavConfig → Exec Db Response
    ingested now id none = pure no_backend
    ingested now id (some c) = lift (webdav_client network c) >>= λ send.
        run_ingest host now id (some send) >>= λ (report, status).
        pure (json (ingest_report report status) 200)

    unfoldable pub ingest_now_handler : Config → ℕ → String → Request → Exec Db Response
    ingest_now_handler cfg now id r =
        as_admin rt cfg now r
          (handle (λ db. ingested now id (resolve_storage cipher db secret_key) db))
