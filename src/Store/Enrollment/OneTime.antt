-- ===== src/Store/Enrollment/OneTime.antt =====
-- An enrollment token enrolls one device, and a failed enrolment leaves no trace.
use relaydot.Prelude.{
  constraint, pure, ℕ, ◌+◌, String, true, false, none, some, List, [], ◌∷◌, ◌++◌, arith, ◌≡◌, refl,
  eq_iff, is_some, if◌then◌else◌, any, update, first, first-update, first-append, Option-cases,
  Bool-cases, inl, inr, ok, err, Error, authentication, result, after,
}
use relaydot.Store.Schema.{insert_into-cases, EnrollmentToken, Device, Db, Draw, audit}
use relaydot.Store.Enrollment.{
  EnrollInput, Credentials, token_row, token_clash, device_row, device_clash, has_token, is_live,
  is_open, consume, enroll_device, authenticate_device, create_enrollment_token, heartbeat,
}

-- What an operator or a device asks for while tokens are in use.
pub data Request : Type 0 where
  issue : Draw → ℕ → Request
  enroll : Draw → EnrollInput → Request
  beat : ℕ → String → String → Request

module _ (hash : String → String) where
  -- An enrolment that fails, at whichever of its steps, leaves the database as it was.
  pub enroll_device-err :
      (d : Draw) (i : EnrollInput) (db : Db) (e : Error)
      → result (enroll_device hash d i) db ≡ err e
      → after (enroll_device hash d i) db ≡ db
  unfolding enroll_device
  enroll_device-err d i db e h = ground arith

  -- The row that a token selects is consumed.
  abbrev pub Spent : String → Db → Type 0
  Spent token db =
      (t : EnrollmentToken) × (first (has_token hash token) db.tokens ≡ some t)
      × (is_some t.consumed_at ≡ true)

  Spent-consume :
      (d : Draw) (token : String) (rows : List EnrollmentToken) (t : EnrollmentToken)
      → first (has_token hash token) rows ≡ some t
      → (u : EnrollmentToken) × (first
            (has_token hash token)
            (update (is_open t.id) (consume d.now d.id) rows)
          ≡ some u)
        × (is_some u.consumed_at ≡ true)
  Spent-consume d token rows t e = (
    if is_open t.id t then consume d.now d.id t else t,
    ground (
      arith,
      first-update (has_token hash token) (is_open t.id) (consume d.now d.id) rows (λ x. refl),
    ),
    ground (arith, eq_iff t.id t.id),
  )

  enroll_device-Spent :
      (d : Draw) (i : EnrollInput) (db : Db) (c : Credentials)
      → result (enroll_device hash d i) db ≡ ok c
      → Spent i.token (after (enroll_device hash d i) db)
  unfolding enroll_device
  enroll_device-Spent d i db c h = elim (Option-cases (first (has_token hash i.token) db.tokens)) [
    | inl e ↦ ground arith
    | inr (t, e) ↦
        let (u, found, spent) = Spent-consume d i.token db.tokens t e in (u, ground arith, spent)
  ]

  Spent-refuses :
      (d : Draw) (i : EnrollInput) (db : Db)
      → Spent i.token db
      → enroll_device hash d i db
        ≡ (err (authentication "invalid, expired, or consumed enrollment token"), db)
  unfolding enroll_device
  Spent-refuses d i db (t, e, s) = ground arith

  create_enrollment_token_lem :
      (d : Draw) (ttl : ℕ) (db : Db)
      → create_enrollment_token hash d ttl db ≡ (
          if any (token_clash hash (token_row hash d ttl)) db.tokens
          then (err constraint, db)
          else (
            ok (record { id = d.id; token = d.token; expires_at = d.now + ttl }),
            audit d "enrollment_token.created" "enrollment_token" d.id []
                (record db { tokens = db.tokens ++ token_row hash d ttl ∷ [] }),
          ))
  unfolding create_enrollment_token
  create_enrollment_token_lem d ttl db =
      insert_into-cases (λ db. db.tokens) (λ db rows. record db { tokens = rows })
        (token_clash hash (token_row hash d ttl)) (token_row hash d ttl)
        (audit d "enrollment_token.created" "enrollment_token" d.id [])
        (pure (record { id = d.id; token = d.token; expires_at = d.now + ttl })) db

  create_enrollment_token-Spent :
      (d : Draw) (token : String) (ttl : ℕ) (db : Db)
      → Spent token db
      → Spent token (after (create_enrollment_token hash d ttl) db)
  unfolding audit
  create_enrollment_token-Spent d token ttl db (t, e, s) = (
    t,
    ground (
      arith,
      create_enrollment_token_lem d ttl db,
      first-append (has_token hash token) db.tokens (token_row hash d ttl ∷ []),
    ),
    s,
  )

  consume-Spent :
      (d : Draw) (token id : String) (rows : List EnrollmentToken) (t : EnrollmentToken)
      → first (has_token hash token) rows ≡ some t
      → is_some t.consumed_at ≡ true
      → first (has_token hash token) (update (is_open id) (consume d.now d.id) rows) ≡ some t
  consume-Spent d token id rows t e s = ground (
    arith,
    first-update (has_token hash token) (is_open id) (consume d.now d.id) rows (λ x. refl),
  )

  enroll_device-keeps-Spent :
      (d : Draw) (token : String) (i : EnrollInput) (db : Db)
      → Spent token db
      → Spent token (after (enroll_device hash d i) db)
  unfolding enroll_device
  enroll_device-keeps-Spent d token i db (t, e, s) = (
    t,
    elim (Option-cases (first (has_token hash i.token) db.tokens)) [
      | inl f ↦ ground arith
      | inr (u, f) ↦ ground (arith, consume-Spent d token u.id db.tokens t)
    ],
    s,
  )

  pub serve : Request → Db → Db
  unfolding create_enrollment_token enroll_device heartbeat
  serve (issue d ttl) db = after (create_enrollment_token hash d ttl) db
  serve (enroll d i) db = after (enroll_device hash d i) db
  serve (beat now id version) db = after (heartbeat now id version) db

  pub serve_all : List Request → Db → Db
  unfolding serve
  serve_all [] db = db
  serve_all (r ∷ rs) db = serve_all rs (serve r db)

  serve-Spent : (r : Request) (token : String) (db : Db) → Spent token db → Spent token (serve r db)
  unfolding serve
  serve-Spent (issue d ttl) token db s = create_enrollment_token-Spent d token ttl db s
  serve-Spent (enroll d i) token db s = enroll_device-keeps-Spent d token i db s
  serve-Spent (beat now id version) token db (t, e, s) = (t, ground arith, s)

  serve_all-Spent :
      (rs : List Request) (token : String) (db : Db)
      → Spent token db
      → Spent token (serve_all rs db)
  unfolding serve_all
  serve_all-Spent [] token db s = s
  serve_all-Spent (r ∷ rs) token db s =
      serve_all-Spent rs token (serve r db) (serve-Spent r token db s)

  -- An enrollment token is good for one device: once a device is enrolled with it, then whatever
  -- tokens are issued, devices enroll and heartbeats arrive, every other enrolment with it is
  -- refused and changes nothing.
  pub enroll_device-once :
      (d e : Draw) (i j : EnrollInput) (db : Db) (c : Credentials) (rs : List Request)
      → result (enroll_device hash d i) db ≡ ok c
      → j.token ≡ i.token
      → let later = serve_all rs (after (enroll_device hash d i) db) in
        enroll_device hash e j later
        ≡ (err (authentication "invalid, expired, or consumed enrollment token"), later)
  enroll_device-once d e i j db c rs h same =
      Spent-refuses e j _ (rw same (serve_all-Spent rs i.token _ (enroll_device-Spent d i db c h)))

  fresh-none :
      (row : Device) (rows : List Device)
      → any (device_clash hash row) rows ≡ false
      → first (is_live row.id) rows ≡ none
  unfolding device_clash
  fresh-none row [] h = refl
  fresh-none row (x ∷ rows) h = ground (arith, fresh-none row rows)

  -- The credentials that an enrolment returns authenticate the device that it added, with the
  -- name, platform and version that were sent, enrolled and last seen now, and not revoked.
  pub enroll_device-authenticates :
      (d : Draw) (i : EnrollInput) (db : Db) (c : Credentials)
      → result (enroll_device hash d i) db ≡ ok c
      → result
          (authenticate_device hash c.device_id c.device_token)
          (after (enroll_device hash d i) db)
        ≡ ok (device_row hash d i)
  unfolding enroll_device authenticate_device device_row
  enroll_device-authenticates d i db c h =
      elim (Bool-cases (any (device_clash hash (device_row hash d i)) db.devices)) [
        | inl clash ↦ ground arith
        | inr fresh ↦ ground (
          arith,
          fresh-none (device_row hash d i) db.devices fresh,
          first-append (is_live d.id) db.devices (device_row hash d i ∷ []),
          eq_iff d.id d.id,
          eq_iff (hash d.token) (hash d.token),
        )
      ]
