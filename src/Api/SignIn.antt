-- ===== src/Api/SignIn.antt =====
-- apps/web/src/lib/api.ts: sign-in and sign-out. A sign-in waits for its body between its two halves,
-- and other requests may run then: it keeps the identity of its window and its key meanwhile.
pub mod Refusals
pub mod Cookies
use relaydot.Prelude.{
  ℕ, ◌+◌, String, Bool, true, false, Option, none, some, ◌⊎◌, inl, inr, if◌then◌else◌, Result, ok,
  err, validation, Exec, pure, lift, ◌>>=◌, ◌>>◌,
}
use relaydot.Json.{Row, get, as_text}
use relaydot.Store.Schema.{Db, Draw}
use relaydot.Store.Enrollment.{IssuedToken}
use relaydot.Store.Sessions.{create_admin_session, revoke_admin_session}
use relaydot.Throttle.{Throttle, Attempts, login_throttle, fail, reset}
use relaydot.Access.{
  Runtime, Config, Request, is_same_origin, read_cookie, client_key, tokens_match, session_cookie,
  session_ttl_seconds,
}
use relaydot.Api.{
  Content, error, signed_in, signed_out, Response, json, answered, object_of, require_string,
}

module _ (rt : Runtime) where
  abbrev admitted : (Bool × Attempts) × Throttle → Result (Response ⊎ ℕ) × Throttle
  admitted ((true, window), after) =
      (ok (inl (json (error "too many sign-in attempts") 429)), after)
  admitted ((false, window), after) = (ok (inr window.window), after)

  abbrev from_origin : String → ℕ → Throttle → Result Bool → Result (Response ⊎ ℕ) × Throttle
  from_origin key now t (err e) = (err e, t)
  from_origin key now t (ok false) =
      (ok (inl (json (error "cross-origin sign-in rejected") 403)), t)
  from_origin key now t (ok true) = admitted (login_throttle now key t)

  -- Up to the body: a response, or the window of the request.
  unfoldable pub sign_in_begin : Config → ℕ → Request → Exec Throttle (Response ⊎ ℕ)
  sign_in_begin cfg now r t =
      from_origin (client_key rt r) now t (is_same_origin rt r cfg.public_url)

  -- The database and the throttle, as the second half finds them.
  abbrev pub State : Type 0
  State = Db × Throttle

  abbrev with_cookie : IssuedToken → Result String → Result Response
  with_cookie session (err e) = err e
  with_cookie session (ok cookie) =
      ok (record { status = 200; content = signed_in session.expires_at; set_cookie = some cookie })

  abbrev started : Config → Request → Throttle → Result IssuedToken × Db → Result Response × State
  started cfg r t (err e, db) = (err e, (db, t))
  started cfg r t (ok session, db) =
      (with_cookie session (session_cookie rt r session.token "28800" cfg.public_url), (db, t))

  abbrev checked : Config → ℕ → Draw → ℕ → Request → Option String → State → Result Response × State
  checked cfg purge_now d window r none s = (err (validation "token must be a non-empty string"), s)
  checked cfg purge_now d window r (some token) (db, t) =
      if tokens_match rt token cfg.admin_token
      then started cfg r (reset (client_key rt r) t)
          (create_admin_session rt.hash d session_ttl_seconds purge_now db)
      else (ok (json (error "invalid admin token") 401), (db, fail window t))

  abbrev with_body : Config → ℕ → Draw → ℕ → Request → Result Row → State → Result Response × State
  with_body cfg purge_now d window r (err e) s = (err e, s)
  with_body cfg purge_now d window r (ok body) s =
      checked cfg purge_now d window r (as_text (get "token" body)) s

  -- From the body on.
  unfoldable pub sign_in_finish : Config → ℕ → Draw → ℕ → Request → Exec State Response
  sign_in_finish cfg purge_now d window r s =
      let (result, after) = with_body cfg purge_now d window r (object_of r.body) s in
      (answered result, after)

  abbrev cleared : Result String → Result Response
  cleared (err e) = err e
  cleared (ok cookie) = ok (record { status = 200; content = signed_out; set_cookie = some cookie })

  abbrev cleared_cookie : Config → Request → Result Response
  cleared_cookie cfg r = cleared (session_cookie rt r "" "0" cfg.public_url)

  abbrev revoked : Config → Request → Result (Unit {0}) × Db → Result Response × Db
  revoked cfg r (err e, db) = (err e, db)
  revoked cfg r (ok u, db) = (cleared_cookie cfg r, db)

  abbrev signed_off : Config → Draw → Request → Db → Result (Option String) → Result Response × Db
  signed_off cfg d r db (err e) = (err e, db)
  signed_off cfg d r db (ok none) = (cleared_cookie cfg r, db)
  signed_off cfg d r db (ok (some token)) = revoked cfg r (revoke_admin_session rt.hash d token db)

  abbrev off_from : Config → Draw → Request → Db → Result Bool → Result Response × Db
  off_from cfg d r db (err e) = (err e, db)
  off_from cfg d r db (ok false) = (ok (json (error "cross-origin sign-out rejected") 403), db)
  off_from cfg d r db (ok true) = signed_off cfg d r db (read_cookie rt r)

  unfoldable pub sign_out : Config → Draw → Request → Exec Db Response
  sign_out cfg d r db = off_from cfg d r db (is_same_origin rt r cfg.public_url)
