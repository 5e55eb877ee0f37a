-- ===== src/Access/Admission.antt =====
-- Only a holder of the administrator's token or of a live session passes.
use relaydot.Prelude.{
  ℕ, ◌<◌, ◌≡◌, String, true, false, none, some, ◌⊎◌, inl, inr, arith, eq_iff, first, Option-cases,
  Result-cases, ok, result, after, starts_with, slice, len,
}
use relaydot.Store.Schema.{AdminSession, Device, Db}
use relaydot.Store.Enrollment.{is_live, authenticate_device}
use relaydot.Store.Sessions.{holds_token, live_session, authenticate_admin_session}
use relaydot.Access.{
  Runtime, Config, Request, read_cookie, is_same_origin, require_admin, require_device,
}

module _ (rt : Runtime) where
  -- The request sends the administrator's token.
  abbrev pub HasToken : Config → Request → Type 0
  HasToken cfg r =
      (token : String) × (r.admin_token ≡ some token) × (rt.hash token ≡ rt.hash cfg.admin_token)

  -- The request comes from the controller's own pages, with the cookie of a session that is not
  -- revoked and not over.
  abbrev pub HasSession : Config → ℕ → Request → Db → Type 0
  HasSession cfg now r db =
      (token : String) × (s : AdminSession) × (r.admin_token ≡ none)
      × (read_cookie rt r ≡ ok (some token))
      × (is_same_origin rt r cfg.public_url ≡ ok true)
      × (first (holds_token rt.hash token) db.sessions ≡ some s)
      × (s.revoked_at ≡ none)
      × (now < s.expires_at)

  -- The request carries, as a bearer token, the token of the device, which is not revoked.
  abbrev pub HasDevice : String → Request → Db → Type 0
  HasDevice device_id r db =
      (header : String) × (d : Device) × (r.authorization ≡ some header)
      × (starts_with header "Bearer " ≡ true)
      × (first (is_live device_id) db.devices ≡ some d)
      × (rt.hash (slice header 7 (len header)) ≡ d.token_hash)

  -- A request that `requireAdmin` lets pass has the administrator's token, or has no such header and
  -- comes from the same origin with the cookie of a live session.
  pub require_admin-passes :
      (cfg : Config) (now : ℕ) (r : Request) (db : Db)
      → result (require_admin rt cfg now r) db ≡ ok none
      → HasToken cfg r ⊎ HasSession cfg now r db
  unfolding require_admin authenticate_admin_session
  require_admin-passes cfg now r db h = elim (Option-cases (r.admin_token)) [
    | inr (token, e) ↦
        inl (token, e, ground (arith, eq_iff (rt.hash token) (rt.hash cfg.admin_token)))
    | inl e ↦ elim (Result-cases (read_cookie rt r)) [
      | inr (x, c) ↦ absurd (ground arith)
      | inl (none, c) ↦ absurd (ground arith)
      | inl (some token, c) ↦ elim (Result-cases (is_same_origin rt r cfg.public_url)) [
        | inr (x, o) ↦ absurd (ground arith)
        | inl (false, o) ↦ absurd (ground arith)
        | inl (true, o) ↦ elim (Option-cases (first (holds_token rt.hash token) db.sessions)) [
          | inl f ↦ absurd (ground arith)
          | inr (s, f) ↦ inr (token, s, e, c, o, f, ground arith, ground arith)
        ]
      ]
    ]
  ]

  -- A request that `requireDevice` lets pass for a device carries the token of that device as its
  -- bearer token, and the device is not revoked.
  pub require_device-passes :
      (device_id : String) (r : Request) (db : Db)
      → result (require_device rt r device_id) db ≡ ok none
      → HasDevice device_id r db
  unfolding require_device authenticate_device
  require_device-passes device_id r db h = elim (Option-cases (r.authorization)) [
    | inl e ↦ absurd (ground arith)
    | inr (header, e) ↦ elim (Option-cases (first (is_live device_id) db.devices)) [
      | inl f ↦ absurd (ground arith)
      | inr (d, f) ↦ (
        header,
        d,
        e,
        ground arith,
        f,
        ground (arith, eq_iff (rt.hash (slice header 7 (len header))) d.token_hash),
      )
    ]
  ]

  -- A guard that refuses writes nothing.
  pub require_admin-keeps :
      (cfg : Config) (now : ℕ) (r : Request) (db : Db)
      → (result (require_admin rt cfg now r) db ≡ ok none)
        ⊎ (after (require_admin rt cfg now r) db ≡ db)
  unfolding require_admin authenticate_admin_session
  require_admin-keeps cfg now r db = elim (Option-cases (r.admin_token)) [
    | inr (token, e) ↦ inr (ground arith)
    | inl e ↦ elim (Result-cases (read_cookie rt r)) [
      | inr (x, c) ↦ inr (ground arith)
      | inl (none, c) ↦ inr (ground arith)
      | inl (some token, c) ↦ elim (Result-cases (is_same_origin rt r cfg.public_url)) [
        | inr (x, o) ↦ inr (ground arith)
        | inl (false, o) ↦ inr (ground arith)
        | inl (true, o) ↦ elim (Option-cases (first (holds_token rt.hash token) db.sessions)) [
          | inl f ↦ inr (ground arith)
          | inr (s, f) ↦ elim (Result-cases (live_session now (some s))) [
            | inl (live, v) ↦ inl (ground arith)
            | inr (x, v) ↦ inr (ground arith)
          ]
        ]
      ]
    ]
  ]

  pub require_device-keeps :
      (device_id : String) (r : Request) (db : Db) → after (require_device rt r device_id) db ≡ db
  unfolding require_device authenticate_device
  require_device-keeps device_id r db = ground arith
