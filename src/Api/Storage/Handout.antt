-- ===== src/Api/Storage/Handout.antt =====
-- The credential of the backend, from the administrator who saves it to the device that uses it.
use relaydot.Prelude.{
  Lacks, ℕ, String, Bool, Option, none, some, List, ◌≡◌, refl, ap, ◌∙◌, ok, err, Result, after,
  result, Exec, lift, ◌>>=◌, pure, true, false,
}
use relaydot.Json.{obj, Row, get, as_text}
use relaydot.Store.Schema.{StorageBackend, Db, Draw, audit}
use relaydot.Store.Storage.{
  configured, probed, save_storage_backend, storage_backend, record_storage_probe,
}
use relaydot.Webdav.{WebdavConfig, WebdavEntry, Answer, Network, normalize_base_url}
use relaydot.Crypto.{Cipher, encrypt_secret, resolved, resolve_storage}
use relaydot.Crypto.Envelope.{decrypt_secret-encrypt_secret}
use relaydot.Ingest.{Host}
use relaydot.Access.{Runtime, Config, Request, require_admin, require_device}
use relaydot.Access.Admission.{require_device-keeps}
use relaydot.Api.{
  object_of, text_or_error, Response, Probe, on_refusal, storage_credential, storage_saved, json,
  handle, as_admin, as_device,
}
use relaydot.Api.Storage.{
  handed_out, valid_url, recorded, probe_client, probe_config, probe_storage, save_backend,
  save_storage_handler, device_storage_handler,
}

-- A probe changes no column that the credential is made of.
module _ (cipher : Cipher) (network : Network) (host : Host) (secret_key : Option (List ℕ)) where
  resolved-probed :
      (now : ℕ) (b : Bool) (e : Option String) (o : Option StorageBackend)
      → resolved cipher (probed now b e o) secret_key ≡ resolved cipher o secret_key
  resolved-probed now b e none = refl
  resolved-probed now b e (some c) = refl

  resolve_storage-record_storage_probe :
      (now : ℕ) (b : Bool) (e : Option String) (db : Db)
      → resolve_storage cipher (record_storage_probe now b e db) secret_key
        ≡ resolve_storage cipher db secret_key
  unfolding resolve_storage record_storage_probe storage_backend
  resolve_storage-record_storage_probe now b e db = resolved-probed now b e db.backend

  abbrev KeepsCredential : Exec Db Probe → Type 0
  KeepsCredential call =
      (db : Db)
      → resolve_storage cipher (after call db) secret_key ≡ resolve_storage cipher db secret_key

  recorded-KeepsCredential :
      (now : ℕ) (r : Result (List WebdavEntry))
      → KeepsCredential (recorded cipher network host secret_key now r)
  recorded-KeepsCredential now (ok entries) db =
      resolve_storage-record_storage_probe now true none db
  recorded-KeepsCredential now (err e) db =
      resolve_storage-record_storage_probe now false (some (host.message e)) db

  probe_client-KeepsCredential :
      (now : ℕ) (r : Result (String → String → Option Answer))
      → KeepsCredential (probe_client cipher network host secret_key now r)
  probe_client-KeepsCredential now (ok send) db = recorded-KeepsCredential now _ db
  probe_client-KeepsCredential now (err e) db = refl

  probe_config-KeepsCredential :
      (now : ℕ) (c : Option WebdavConfig)
      → KeepsCredential (probe_config cipher network host secret_key now c)
  probe_config-KeepsCredential now none db = refl
  probe_config-KeepsCredential now (some c) db = probe_client-KeepsCredential now _ db

  probe_storage-KeepsCredential :
      (now : ℕ) → KeepsCredential (probe_storage cipher network host secret_key now)
  unfolding probe_storage
  probe_storage-KeepsCredential now db = probe_config-KeepsCredential now _ db

lifted :
    {S A B : Type 0} {x : Result A} {a : A}
    → x ≡ ok a
    → (f : A → Exec S B) (s : S) → (lift x >>= f) s ≡ f a s
lifted e f s = ap (λ y. (lift y >>= f) s) e

pair_path : {A B : Type 0} (p : A × B) {a : A} {b : B} → p.0 ≡ a → p.1 ≡ b → p ≡ (a, b)
pair_path p e f = λ i. (e i, f i)

continued_pure :
    {S A B : Type 0} (f : A → B) (p : Result A × S) → (((λ s. p) >>= λ a. pure (f a)) p.1).1 ≡ p.1
continued_pure f (ok a, s) = refl
continued_pure f (err e, s) = refl

after-pure :
    {S A B : Type 0} (f : A → B) (call : Exec S A) (s : S)
    → after (call >>= λ a. pure (f a)) s ≡ after call s
after-pure f call s = continued_pure f (call s)

module _ (rt : Runtime) where
  as_admin-passed :
      (cfg : Config) (now : ℕ) (r : Request) (action : Exec Db Response) (db admitted : Db)
      → require_admin rt cfg now r db ≡ (ok none, admitted)
      → as_admin rt cfg now r action db ≡ action admitted
  unfolding as_admin
  as_admin-passed cfg now r action db admitted h = ap (λ p. ((λ s. p) >>= on_refusal action) db) h

  as_device-passed :
      (r : Request) (id : String) (action : Exec Db Response) (db admitted : Db)
      → require_device rt r id db ≡ (ok none, admitted)
      → as_device rt r id action db ≡ action admitted
  unfolding as_device
  as_device-passed r id action db admitted h = ap (λ p. ((λ s. p) >>= on_refusal action) db) h

-- What the credential is after a password was saved.
module _ (cipher : Cipher)
    (from_base64-to_base64 : (b : List ℕ) → cipher.from_base64 (cipher.to_base64 b) ≡ b)
    (to_base64-Lacks : (b : List ℕ) → Lacks b':' (cipher.to_base64 b))
    (unseal-seal : (key iv plain : List ℕ)
      → cipher.unseal key iv (cipher.seal key iv plain).0 (cipher.seal key iv plain).1 ≡ some plain)
    (key iv : List ℕ) (base_url username password : String)
    (from_utf8-to_utf8 : cipher.from_utf8 (cipher.to_utf8 password) ≡ password) where
  resolved-configured :
      (d : Draw) (o : Option StorageBackend)
      → resolved cipher
          (some (configured d base_url username (encrypt_secret cipher iv password key) o))
          (some key)
        ≡ some (record { base_url = base_url; username = username; password = password })
  resolved-configured d none = rw (
      decrypt_secret-encrypt_secret cipher from_base64-to_base64 to_base64-Lacks unseal-seal iv
        password key from_utf8-to_utf8)
  resolved-configured d (some b) = rw (
      decrypt_secret-encrypt_secret cipher from_base64-to_base64 to_base64-Lacks unseal-seal iv
        password key from_utf8-to_utf8)

  resolve_storage-save_storage_backend :
      (d : Draw) (db : Db)
      → resolve_storage cipher
          (save_storage_backend d base_url username (encrypt_secret cipher iv password key) db)
          (some key)
        ≡ some (record { base_url = base_url; username = username; password = password })
  unfolding resolve_storage save_storage_backend storage_backend audit
  resolve_storage-save_storage_backend d db = resolved-configured d db.backend

  module _ (network : Network) (host : Host) (probed_at : ℕ) (d : Draw) (r : Request) (body : Row)
      (raw : String) (sent : r.body ≡ some (obj body))
      (sends_url : as_text (get "base_url" body) ≡ some raw)
      (sends_username : as_text (get "username" body) ≡ some username)
      (sends_password : as_text (get "password" body) ≡ some password)
      (is_valid : normalize_base_url network raw ≡ ok base_url) where
    save_backend-probe_storage :
        (db : Db)
        → save_backend cipher network host (some key) d probed_at iv r db
          ≡ (probe_storage cipher network host (some key) probed_at >>= λ outcome.
                pure (json (storage_saved base_url outcome) 200))
              (save_storage_backend d base_url username (encrypt_secret cipher iv password key) db)
    unfolding save_backend
    save_backend-probe_storage db = rw (
      lifted (ap object_of sent),
      lifted (ap (text_or_error "base_url") sends_url),
      lifted (ap (text_or_error "username") sends_username),
      lifted (ap (text_or_error "password") sends_password),
      lifted (ap (valid_url host) is_valid),
    )

    save_backend-resolve_storage :
        (db : Db)
        → resolve_storage cipher
            (after (handle (save_backend cipher network host (some key) d probed_at iv r)) db)
            (some key)
          ≡ some (record { base_url = base_url; username = username; password = password })
    unfolding handle
    save_backend-resolve_storage db =
        ap (λ p. resolve_storage cipher p.1 (some key)) (save_backend-probe_storage db)
        ∙ rw (
          after-pure (λ outcome. json (storage_saved base_url outcome) 200)
              (probe_storage cipher network host (some key) probed_at),
          probe_storage-KeepsCredential cipher network host (some key) probed_at,
          resolve_storage-save_storage_backend d db,
        )

    -- The credential that an administrator saves is what the device is handed out, as it was typed, by
    -- a controller with the same secret key: if base64 reads back what it wrote and has no colon,
    -- UTF-8 reads back the password, the cipher opens what it sealed, the request to save is admitted with a
    -- nonempty URL, user and password, the URL is valid, and the request of the device passes.
    pub save_storage_handler-hands_out :
        (rt : Runtime) (cfg : Config) (now : ℕ) (db admitted : Db)
        → require_admin rt cfg now r db ≡ (ok none, admitted)
        → (q : Request) (device_id : String)
        → result (require_device rt q device_id) (
            after
              (save_storage_handler rt cipher network host (some key) cfg now d probed_at iv r)
              db)
          ≡ ok none
        → result (device_storage_handler rt cipher (some key) q device_id) (
            after
              (save_storage_handler rt cipher network host (some key) cfg now d probed_at iv r)
              db)
          ≡ ok (
              json
                (storage_credential
                  (record { base_url = base_url; username = username; password = password }))
                200)
    unfolding save_storage_handler device_storage_handler
    save_storage_handler-hands_out rt cfg now db admitted a q device_id passes =
        let saved : Db =
          after (save_storage_handler rt cipher network host (some key) cfg now d probed_at iv r)
            db in
        ap (λ p. p.0)
          (as_device-passed rt q device_id _ saved saved (
            pair_path (require_device rt q device_id saved) passes
              (require_device-keeps rt device_id q saved)))
        ∙ ap (λ s. ok (handed_out (resolve_storage cipher s (some key))))
            (ap (λ p. p.1) (as_admin-passed rt cfg now r _ db admitted a))
        ∙ ap (λ c. ok (handed_out c)) (save_backend-resolve_storage admitted)
