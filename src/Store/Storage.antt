-- ===== src/Store/Storage.antt =====
-- apps/web/src/lib/store.ts: the shared WebDAV backend, a table of one row, and the audit log's list.
use relaydot.Prelude.{
  ℕ, String, Bool, ◌&&◌, ◌||◌, not, Option, none, some, List, [], ◌∷◌, ltb, ◌==◌, if◌then◌else◌,
  order_by,
}
use relaydot.Store.Schema.{StorageBackend, AuditEvent, Db, Draw, audit}
use relaydot.Store.Order.{str_ltb}

abbrev pub configured : Draw → String → String → String → Option StorageBackend → StorageBackend
configured d base_url username password_encrypted none = record {
  base_url = base_url;
  username = username;
  password_encrypted = password_encrypted;
  created_at = d.now;
  updated_at = d.now;
  verified_at = none;
  last_error = none;
}
configured d base_url username password_encrypted (some b) = record b {
  base_url = base_url;
  username = username;
  password_encrypted = password_encrypted;
  updated_at = d.now;
  verified_at = none;
  last_error = none;
}

unfoldable pub save_storage_backend : Draw → String → String → String → Db → Db
save_storage_backend d base_url username password_encrypted db =
    audit d "storage.configured" "storage_backend" "1" (("base_url", base_url) ∷ [])
      (record db { backend = some (configured d base_url username password_encrypted db.backend) })

unfoldable pub storage_backend : Db → Option StorageBackend
storage_backend db = db.backend

abbrev pub probed : ℕ → Bool → Option String → Option StorageBackend → Option StorageBackend
probed now ok error none = none
probed now ok error (some b) = some (record b {
  verified_at = if ok then some now else none;
  last_error = if ok then none else error;
})

unfoldable pub record_storage_probe : ℕ → Bool → Option String → Db → Db
record_storage_probe now ok error db = record db { backend = probed now ok error db.backend }

-- The transaction writes its audit event only when it removed the row.
unfoldable pub delete_storage_backend : Draw → Db → Db
delete_storage_backend d db = elim (db.backend) [
  | none ↦ db
  | some b ↦ audit d "storage.removed" "storage_backend" "1" [] (record db { backend = none })
]

abbrev event_before : AuditEvent → AuditEvent → Bool
event_before a b =
    ltb a.created_at b.created_at || a.created_at == b.created_at && not (str_ltb b.id a.id)

pub list_audit_events : Db → List AuditEvent
list_audit_events db = order_by event_before db.audit_events
