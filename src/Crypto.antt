-- ===== src/Crypto.antt =====
-- apps/web/src/lib/crypto.ts and storage.ts: the envelope of a stored secret, and the credentials of
-- the configured backend. A buffer is the list of its bytes. `Cipher` holds what node:crypto and
-- Buffer provide: scrypt; AES-256-GCM, whose `seal key iv plaintext` is the authentication tag and the
-- sealed bytes, and whose `unseal key iv tag sealed` is `none` where a call of the decipher throws;
-- base64; and UTF-8.
pub mod Envelope
use relaydot.Prelude.{
  ℕ, String, Option, none, some, List, [], ◌∷◌, ◌=ˢ◌, if◌then◌else◌, join, split_on, Result, ok,
  err, failure,
}
use relaydot.Store.Schema.{StorageBackend, Db}
use relaydot.Store.Storage.{storage_backend}
use relaydot.Webdav.{WebdavConfig}

pub record Cipher : Type 0 where
  pub scrypt : String → String → ℕ → List ℕ
  pub seal : List ℕ → List ℕ → List ℕ → List ℕ × List ℕ
  pub unseal : List ℕ → List ℕ → List ℕ → List ℕ → Option (List ℕ)
  pub to_base64 : List ℕ → String
  pub from_base64 : String → List ℕ
  pub to_utf8 : String → List ℕ
  pub from_utf8 : List ℕ → String

abbrev pub version : String
version = "v1"

abbrev key_salt : String
key_salt = "relaydot/secret-key/v1"

module _ (cipher : Cipher) where
  unfoldable pub derive_secret_key : String → Result (List ℕ)
  derive_secret_key passphrase =
      if passphrase =ˢ ""
      then err (failure "secret passphrase must not be empty")
      else ok (cipher.scrypt passphrase key_salt 32)

  abbrev pub envelope : List ℕ → List ℕ × List ℕ → String
  envelope iv (tag, sealed) =
      join ":" (version ∷ cipher.to_base64 iv ∷ cipher.to_base64 tag ∷ cipher.to_base64 sealed ∷ [])

  -- `iv` is what `randomBytes` returns.
  unfoldable pub encrypt_secret : List ℕ → String → List ℕ → String
  encrypt_secret iv plaintext key = envelope iv (cipher.seal key iv (cipher.to_utf8 plaintext))

  abbrev opened : Option (List ℕ) → Result String
  opened (some bytes) = ok (cipher.from_utf8 bytes)
  opened none =
      err (failure "stored secret could not be decrypted; the secret key may have changed")

  abbrev pub open_parts : List ℕ → List String → Result String
  open_parts key (v ∷ iv ∷ tag ∷ sealed ∷ []) =
      if v =ˢ version
      then opened (
          cipher.unseal key (cipher.from_base64 iv) (cipher.from_base64 tag)
            (cipher.from_base64 sealed))
      else err (failure "unrecognized secret envelope")
  open_parts key _ = err (failure "unrecognized secret envelope")

  unfoldable pub decrypt_secret : String → List ℕ → Result String
  decrypt_secret payload key = open_parts key (split_on b':' payload)

  abbrev credentials : StorageBackend → Result String → Option WebdavConfig
  credentials b (err e) = none
  credentials b (ok password) =
      some (record { base_url = b.base_url; username = b.username; password = password })

  abbrev pub resolved : Option StorageBackend → Option (List ℕ) → Option WebdavConfig
  resolved (some b) (some key) = credentials b (decrypt_secret b.password_encrypted key)
  resolved _ _ = none

  unfoldable pub resolve_storage : Db → Option (List ℕ) → Option WebdavConfig
  unfolding storage_backend
  resolve_storage db secret_key = resolved (storage_backend db) secret_key
