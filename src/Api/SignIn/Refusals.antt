-- ===== src/Api/SignIn/Refusals.antt =====
-- Who signs in, and what a sign-out ends.
use relaydot.Prelude.{
  ℕ, ◌≡◌, subst, sym, String, true, some, ◌⊎◌, inl, inr, arith, eq_iff, Option-cases, Result-cases,
  Bool-cases, ok, err, authentication, result, after,
}
use relaydot.Json.{Row, get, as_text}
use relaydot.Store.Schema.{Db, Draw}
use relaydot.Store.Sessions.{revoke_admin_session, authenticate_admin_session}
use relaydot.Store.Sessions.Lifecycle.{revoke_admin_session-refuses}
use relaydot.Throttle.{Throttle}
use relaydot.Access.{Runtime, Config, Request, is_same_origin, read_cookie, tokens_match}
use relaydot.Api.{object_of}
use relaydot.Api.SignIn.{sign_in_finish, sign_out}

module _ (rt : Runtime) (cfg : Config) where
  -- The body holds the administrator's token.
  abbrev pub SendsSecret : Request → Type 0
  SendsSecret r =
      (body : Row) × (token : String) × (object_of r.body ≡ ok body)
      × (as_text (get "token" body) ≡ some token)
      × (rt.hash token ≡ rt.hash cfg.admin_token)

  -- The second half of a sign-in leaves the database as it is, unless the body holds the
  -- administrator's token.
  pub sign_in_finish-SendsSecret :
      (purge_now window : ℕ) (d : Draw) (r : Request) (db : Db) (t : Throttle)
      → ((after (sign_in_finish rt cfg purge_now d window r) (db, t)).0 ≡ db) ⊎ SendsSecret r
  unfolding sign_in_finish
  sign_in_finish-SendsSecret purge_now window d r db t = elim (Result-cases (object_of r.body)) [
    | inr (x, b) ↦ inl (ground arith)
    | inl (body, b) ↦ elim (Option-cases (as_text (get "token" body))) [
      | inl e ↦ inl (ground arith)
      | inr (token, e) ↦ elim (Bool-cases (tokens_match rt token cfg.admin_token)) [
        | inl same ↦
            inr (body, token, b, e, (eq_iff (rt.hash token) (rt.hash cfg.admin_token)).0 same)
        | inr other ↦ inl (ground arith)
      ]
    ]
  ]

  sign_out-revokes :
      (d : Draw) (token : String) (r : Request) (db : Db)
      → is_same_origin rt r cfg.public_url ≡ ok true
      → read_cookie rt r ≡ ok (some token)
      → after (sign_out rt cfg d r) db ≡ after (revoke_admin_session rt.hash d token) db
  unfolding sign_out
  sign_out-revokes d token r db o c =
      elim (Result-cases (result (revoke_admin_session rt.hash d token) db)) [
        | inl (u, e) ↦ ground arith
        | inr (x, e) ↦ ground arith
      ]

  -- After a sign-out from the same origin, the token of the request's cookie is refused at all times.
  pub sign_out-refuses :
      (d : Draw) (token : String) (now : ℕ) (r : Request) (db : Db)
      → is_same_origin rt r cfg.public_url ≡ ok true
      → read_cookie rt r ≡ ok (some token)
      → result (authenticate_admin_session rt.hash now token) (after (sign_out rt cfg d r) db)
        ≡ err (authentication "invalid or expired session")
  sign_out-refuses d token now r db o c =
      subst
        (λ s.
          result (authenticate_admin_session rt.hash now token) s
          ≡ err (authentication "invalid or expired session"))
        (sym (sign_out-revokes d token r db o c))
        (revoke_admin_session-refuses rt.hash d token now db)
