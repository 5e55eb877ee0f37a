-- ===== src/Worker/Redelivery.antt =====
-- A job that the queue delivers again.
use relaydot.Prelude.{
  ℕ, String, Bool, true, false, ◌||◌, ◌&&◌, ◌=ˢ◌, any, some, List, [], ◌∷◌, ◌++◌, ◌≡◌, refl, sym,
  Option, ap, ◌∙◌, Bool-cases, inl, inr, arith, str_eq_refl,
}
use relaydot.Json.{obj, Row, get, as_string}
use relaydot.Store.Schema.{AuditEvent, Db, Draw, same_event, audit}
use relaydot.Webdav.{Network}
use relaydot.Crypto.{Cipher}
use relaydot.Ingest.{Host}
use relaydot.Sources.Loading.{Reader, Feed}
use relaydot.Worker.{acked, process, handle_command_created}

abbrev pub has_id : String → AuditEvent → Bool
has_id id e = e.id =ˢ id

module _ (y x action type id : String) where
  same_event-other_id :
      (es : List AuditEvent)
      → any (has_id y) es ≡ false
      → any (same_event y action type id) es ≡ true
      → any (same_event x action type id) es ≡ true
  same_event-other_id [] e h = absurd (ground arith)
  same_event-other_id (a ∷ es) e h = ground (arith, same_event-other_id es)

  any-same_event-append :
      (es : List AuditEvent) (row : AuditEvent)
      → same_event x action type id row ≡ true
      → any (same_event x action type id) (es ++ row ∷ []) ≡ true
  any-same_event-append [] row h = rw h
  any-same_event-append (e ∷ es) row h = ground (arith, any-same_event-append es row h)

same_resource :
    (b : Bool) (action type id : String)
    → b || (action =ˢ action && (type =ˢ type && id =ˢ id)) ≡ true
same_resource true action type id = refl
same_resource false action type id = rw (str_eq_refl action, str_eq_refl type, str_eq_refl id)

audit-ignored :
    (d : Draw) (action type id : String) (db : Db)
    → any (same_event d.audit_id action type id) db.audit_events ≡ true
    → audit d action type id [] db ≡ db
unfolding audit
audit-ignored d action type id db h = rw h

module _ (d again : Draw) (action type id : String) (db : Db)
    (is_fresh : any (has_id d.audit_id) db.audit_events ≡ false) where
  -- An event of the same action and resource is there after the first write.
  audit-written :
      any (same_event again.audit_id action type id) (audit d action type id [] db).audit_events
      ≡ true
  unfolding audit
  audit-written = elim (Bool-cases (any (same_event d.audit_id action type id) db.audit_events)) [
    | inl e ↦
        rw e
          (same_event-other_id d.audit_id again.audit_id action type id db.audit_events is_fresh e)
    | inr e ↦ rw e (
        any-same_event-append d.audit_id again.audit_id action type id db.audit_events _
          (same_resource (d.audit_id =ˢ again.audit_id) action type id))
  ]

  audit-again :
      audit again action type id [] (audit d action type id [] db) ≡ audit d action type id [] db
  audit-again = audit-ignored again action type id _ audit-written

module _ (host : Host) (cipher : Cipher) (network : Network) (secret_key : Option (List ℕ))
    (reader : Reader) (feed : Feed) (path : String) (payload : Row) (command_id : String)
    (is_created : as_string (get "kind" payload) ≡ some "command_created")
    (names : as_string (get "command_id" payload) ≡ some command_id) where
  processed :
      (d : Draw) (later : ℕ) (db : Db)
      → process host cipher network secret_key reader feed path d later (obj payload) db
        ≡ (acked, audit d "command.queued" "command" command_id [] db)
  unfolding process handle_command_created
  processed d later db = rw (is_created, names)

  -- A `command_created` job that is delivered again is acknowledged again, and leaves the database as
  -- the first delivery left it, if the first one drew an id for its audit event that is not taken.
  pub process-again :
      (d again : Draw) (later at : ℕ) (db : Db)
      → any (has_id d.audit_id) db.audit_events ≡ false
      → process host cipher network secret_key reader feed path again at
          (obj payload)
          (process host cipher network secret_key reader feed path d later (obj payload) db).1
        ≡ (
          acked,
          (process host cipher network secret_key reader feed path d later (obj payload) db).1,
        )
  process-again d again later at db is_fresh =
      let first = processed d later db in
      ap (λ p. process host cipher network secret_key reader feed path again at (obj payload) p.1)
        first
      ∙ processed again at _
      ∙ ap (λ s. (acked, s))
          (audit-again d again "command.queued" "command" command_id db is_fresh
            ∙ ap (λ p. p.1) (sym first))
