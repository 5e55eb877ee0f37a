-- ===== src/Store/Sessions/Lifecycle.antt =====
-- A session authenticates from its creation until it expires or is revoked.
use relaydot.Prelude.{
  ℕ, ◌+◌, ◌<◌, String, false, some, List, [], ◌∷◌, ◌++◌, ◌≡◌, refl, arith, eq_iff, any, first,
  delete, first-update, first-append, delete-append, first-delete-none, Option-cases, inl, inr, ok,
  err, constraint, authentication, result, after, pure, ◌>>◌, if◌then◌else◌,
}
use relaydot.Store.Schema.{AdminSession, Db, Draw, insert_into-cases, audit}
use relaydot.Store.Enrollment.{IssuedToken}
use relaydot.Store.Sessions.{
  is_over, is_unrevoked, revoke, holds_token, session_row, session_clash,
  purge_expired_admin_sessions, create_admin_session, authenticate_admin_session, revoke_found,
  revoke_admin_session,
}

module _ (hash : String → String) where
  create_admin_session_lem :
      (d : Draw) (ttl purge_now : ℕ) (db : Db)
      → create_admin_session hash d ttl purge_now db ≡ (
          if any (session_clash hash (session_row hash d ttl)) db.sessions
          then (err constraint, db)
          else (purge_expired_admin_sessions purge_now
                >> pure (record { id = d.id; token = d.token; expires_at = d.now + ttl }))
              (audit d "admin_session.created" "admin_session" d.id []
                (record db { sessions = db.sessions ++ session_row hash d ttl ∷ [] })))
  unfolding create_admin_session
  create_admin_session_lem d ttl purge_now db =
      insert_into-cases (λ db. db.sessions) (λ db rows. record db { sessions = rows })
        (session_clash hash (session_row hash d ttl)) (session_row hash d ttl)
        (audit d "admin_session.created" "admin_session" d.id [])
        (purge_expired_admin_sessions purge_now
          >> pure (record { id = d.id; token = d.token; expires_at = d.now + ttl }))
        db

  -- After a session's token is revoked, it never authenticates on the database that is left: the
  -- administrator gets the authentication error at every time.
  pub revoke_admin_session-refuses :
      (d : Draw) (token : String) (now : ℕ) (db : Db)
      → result
          (authenticate_admin_session hash now token)
          (after (revoke_admin_session hash d token) db)
        ≡ err (authentication "invalid or expired session")
  unfolding revoke_admin_session revoke_found authenticate_admin_session audit
  revoke_admin_session-refuses d token now db =
      elim (Option-cases (first (holds_token hash token) db.sessions)) [
        | inl e ↦ ground arith
        | inr (s, e) ↦ ground (
          arith,
          first-update (holds_token hash token) (is_unrevoked s.id) (revoke d.now) db.sessions
              (λ x. refl),
          eq_iff s.id s.id,
        )
      ]

  fresh-found :
      (d : Draw) (ttl purge_now : ℕ) (rows : List AdminSession)
      → any (session_clash hash (session_row hash d ttl)) rows ≡ false
      → purge_now < d.now + ttl
      → first
          (holds_token hash d.token)
          (delete (is_over purge_now) (rows ++ session_row hash d ttl ∷ []))
        ≡ some (session_row hash d ttl)
  unfolding session_clash session_row
  fresh-found d ttl purge_now rows h k = ground (
    arith,
    delete-append (is_over purge_now) rows (session_row hash d ttl ∷ []),
    first-append (holds_token hash d.token) (delete (is_over purge_now) rows)
        (session_row hash d ttl ∷ []),
    first-delete-none (holds_token hash d.token) (session_clash hash (session_row hash d ttl))
        (is_over purge_now) rows (λ x e. ground arith) h,
    eq_iff (hash d.token) (hash d.token),
  )

  pub create_admin_session-token :
      (d : Draw) (ttl purge_now : ℕ) (issued : IssuedToken) (db : Db)
      → result (create_admin_session hash d ttl purge_now) db ≡ ok issued
      → issued.token ≡ d.token
  unfolding purge_expired_admin_sessions
  create_admin_session-token d ttl purge_now issued db r =
      ground (arith, create_admin_session_lem d ttl purge_now db)

  -- A session that was created authenticates with its token at every time before it expires, when
  -- the purge of the creation ran before that too.
  pub create_admin_session-authenticates :
      (d : Draw) (ttl purge_now now : ℕ) (issued : IssuedToken) (db : Db)
      → result (create_admin_session hash d ttl purge_now) db ≡ ok issued
      → purge_now < d.now + ttl
      → now < d.now + ttl
      → result
          (authenticate_admin_session hash now d.token)
          (after (create_admin_session hash d ttl purge_now) db)
        ≡ ok (record (session_row hash d ttl) { last_seen_at = now })
  unfolding purge_expired_admin_sessions authenticate_admin_session session_row audit
  create_admin_session-authenticates d ttl purge_now now issued db r p k =
      ground (
        arith,
        create_admin_session_lem d ttl purge_now db,
        fresh-found d ttl purge_now db.sessions,
      )
