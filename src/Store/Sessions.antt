-- ===== src/Store/Sessions.antt =====
-- apps/web/src/lib/store.ts: browser sessions of the administrator.
pub mod Lifecycle
mod Tests
use relaydot.Prelude.{
  ℕ, ◌+◌, String, Bool, ◌&&◌, ◌||◌, not, Option, none, some, [], leb, ◌=ˢ◌, if◌then◌else◌, is_some,
  first, update, delete, changes, ok, err, Result, authentication, Exec, pure, lift, gets, modify,
  transaction, ◌>>=◌, ◌>>◌,
}
use relaydot.Store.Schema.{AdminSession, Db, Draw, insert_into, audit}
use relaydot.Store.Enrollment.{IssuedToken}

abbrev pub is_session : String → AdminSession → Bool
is_session id s = s.id =ˢ id

abbrev pub is_over : ℕ → AdminSession → Bool
is_over now s = leb s.expires_at now

-- The test of `authenticateAdminSession` on the row that it finds.
abbrev pub live_session : ℕ → Option AdminSession → Result AdminSession
live_session now none = err (authentication "invalid or expired session")
live_session now (some s) =
    if is_some s.revoked_at || is_over now s
    then err (authentication "invalid or expired session")
    else ok s

abbrev pub touch : ℕ → AdminSession → AdminSession
touch now s = record s { last_seen_at = now }

abbrev pub revoke : ℕ → AdminSession → AdminSession
revoke now s = record s { revoked_at = some now }

abbrev pub is_unrevoked : String → AdminSession → Bool
is_unrevoked id s = s.id =ˢ id && not (is_some s.revoked_at)

unfoldable pub purge_expired_admin_sessions : ℕ → Exec Db ℕ
purge_expired_admin_sessions now db = (
  ok (changes (is_over now) db.sessions),
  record db { sessions = delete (is_over now) db.sessions },
)

module _ (hash : String → String) where
  abbrev pub holds_token : String → AdminSession → Bool
  holds_token token s = s.token_hash =ˢ hash token

  unfoldable pub session_row : Draw → ℕ → AdminSession
  session_row d ttl = record {
    id = d.id;
    token_hash = hash d.token;
    created_at = d.now;
    expires_at = d.now + ttl;
    last_seen_at = d.now;
    revoked_at = none;
  }

  unfoldable pub session_clash : AdminSession → AdminSession → Bool
  session_clash row s = s.id =ˢ row.id || s.token_hash =ˢ row.token_hash

  -- `purge_now` is the time that the purge at the end reads.
  unfoldable pub create_admin_session : Draw → ℕ → ℕ → Exec Db IssuedToken
  unfolding purge_expired_admin_sessions audit
  create_admin_session d ttl purge_now = do
    transaction (do
      insert_into (λ db. db.sessions) (λ db rows. record db { sessions = rows })
          (session_clash (session_row d ttl)) (session_row d ttl)
      modify (audit d "admin_session.created" "admin_session" d.id []))
    purge_expired_admin_sessions purge_now
    pure (record { id = d.id; token = d.token; expires_at = d.now + ttl })

  unfoldable pub authenticate_admin_session : ℕ → String → Exec Db AdminSession
  authenticate_admin_session now token = do
    found ← gets (λ db. first (holds_token token) db.sessions)
    session ← lift (live_session now found)
    modify (λ db. record db { sessions = update (is_session session.id) (touch now) db.sessions })
    pure (touch now session)

  pub revoke_found : Draw → Option AdminSession → Exec Db (Unit {0})
  unfolding audit
  revoke_found d none = pure tt
  revoke_found d (some s) = transaction (do
    modify (λ db. record db { sessions = update (is_unrevoked s.id) (revoke d.now) db.sessions })
    modify (audit d "admin_session.revoked" "admin_session" s.id []))

  pub revoke_admin_session : Draw → String → Exec Db (Unit {0})
  unfolding revoke_found
  revoke_admin_session d token = do
    found ← gets (λ db. first (holds_token token) db.sessions)
    revoke_found d found
