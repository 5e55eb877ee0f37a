-- ===== src/Access.antt =====
-- apps/web/src/lib/security.ts and api.ts: requests, and who may call an endpoint. The record
-- `Runtime` holds what the runtime provides: SHA-256; the parts of `new URL(url)`, `none` where it
-- throws; and `encodeURIComponent` and `decodeURIComponent`, the latter `none` where it throws.
pub mod Admission
mod Tests
use relaydot.Prelude.{
  ℕ, String, Bool, true, false, Option, none, some, List, [], ◌∷◌, ◌=ˢ◌, ◌+ˢ◌, if◌then◌else◌,
  Result, ok, err, Error, authentication, failure, Exec, trim, split_on, first_or, cut_at,
  starts_with, slice, len,
}
use relaydot.Json.{Json}
use relaydot.Store.Schema.{AdminSession, Device, Db}
use relaydot.Store.Enrollment.{authenticate_device}
use relaydot.Store.Sessions.{authenticate_admin_session}

pub record Runtime : Type 0 where
  pub hash : String → String
  pub origin_of : String → Option String
  pub host_of : String → Option String
  pub protocol_of : String → Option String
  pub encode_uri : String → String
  pub decode_uri : String → Option String

-- `RELAYDOT_PUBLIC_URL`, where it is set, and the administrator's token.
pub record Config : Type 0 where
  pub public_url : Option String
  pub admin_token : String

-- A request: its URL, the headers that are read, the query parameter `limit`, and the body, `none`
-- where `request.json()` throws.
pub record Request : Type 0 where
  pub url : String
  pub origin : Option String
  pub host : Option String
  pub forwarded_host : Option String
  pub forwarded_proto : Option String
  pub forwarded_for : Option String
  pub real_ip : Option String
  pub admin_token : Option String
  pub authorization : Option String
  pub cookie : Option String
  pub limit : Option String
  pub body : Option Json

pub record Reply : Type 0 where
  pub status : ℕ
  pub error : String

abbrev pub session_cookie_name : String
session_cookie_name = "relaydot_session"

abbrev pub session_ttl_seconds : ℕ
session_ttl_seconds = 28800

abbrev pub is_same_text : String → Option String → Bool
is_same_text a none = false
is_same_text a (some b) = a =ˢ b

-- `a ?? b` on headers.
abbrev pub or_else : Option String → Option String → Option String
or_else none b = b
or_else (some a) b = some a

module _ (rt : Runtime) where
  abbrev decoded : Option String → Result (Option String)
  decoded none = err (failure "URIError")
  decoded (some value) = ok (some value)

  -- The loop of `readCookie` over the parts of the header. A value that does not decode throws.
  unfoldable pub find_cookie : String → List String → Result (Option String)
  find_cookie name [] = ok none
  find_cookie name (part ∷ parts) =
      let rest = find_cookie name parts in
      elim (cut_at b'=' part) [
        | none ↦ rest
        | some (key, value) ↦
            if trim key =ˢ name then decoded (rt.decode_uri (trim value)) else rest
      ]

  unfoldable pub read_cookie : Request → Result (Option String)
  unfolding find_cookie
  read_cookie r = elim (r.cookie) [
    | none ↦ ok none
    | some header ↦ find_cookie session_cookie_name (split_on b';' header)
  ]

  -- `normalizedOrigin(publicUrl)?.startsWith("https:") === true`.
  abbrev is_https_origin : Option String → Bool
  is_https_origin none = false
  is_https_origin (some origin) = starts_with origin "https:"

  abbrev is_forwarded_https : Option String → Bool
  is_forwarded_https none = false
  is_forwarded_https (some header) = trim (first_or "" (split_on b',' header)) =ˢ "https"

  abbrev is_https : Option String → Result Bool
  is_https none = err (failure "TypeError")
  is_https (some protocol) = ok (protocol =ˢ "https:")

  unfoldable pub is_secure_request : Request → Option String → Result Bool
  is_secure_request r (some url) = ok (is_https_origin (rt.origin_of url))
  is_secure_request r none =
      if is_forwarded_https r.forwarded_proto then ok true else is_https (rt.protocol_of r.url)

  -- `sessionCookie`; `max_age` is the text of its number.
  unfoldable pub session_cookie : Request → String → String → Option String → Result String
  unfolding is_secure_request
  session_cookie r token max_age public_url = elim (is_secure_request r public_url) [
    | err e ↦ err e
    | ok secure ↦ ok (
        session_cookie_name
        +ˢ "="
        +ˢ rt.encode_uri token
        +ˢ "; Path=/; HttpOnly; "
        +ˢ "SameSite=Lax; Max-Age="
        +ˢ max_age
        +ˢ (if secure then "; Secure" else ""))
  ]

  abbrev pub tokens_match : String → String → Bool
  tokens_match left right = rt.hash left =ˢ rt.hash right

  abbrev is_host : String → Option String → Result Bool
  is_host sent none = ok false
  is_host sent (some host) = elim (rt.host_of sent) [
    | none ↦ err (failure "TypeError")
    | some h ↦ ok (h =ˢ host)
  ]

  abbrev is_sent_from : Request → String → Option String → Result Bool
  is_sent_from r sent (some url) = ok (is_same_text sent (rt.origin_of url))
  is_sent_from r sent none = is_host sent (or_else r.forwarded_host r.host)

  unfoldable pub is_same_origin : Request → Option String → Result Bool
  is_same_origin r public_url = elim (r.origin) [
    | none ↦ ok true
    | some origin ↦ elim (rt.origin_of origin) [
      | none ↦ ok false
      | some sent ↦ is_sent_from r sent public_url
    ]
  ]

  -- `clientKey`.
  pub client_key : Request → String
  client_key r = elim (r.forwarded_for) [
    | some header ↦
        if header =ˢ ""
        then elim (r.real_ip) [ some ip ↦ ip | none ↦ "unknown" ]
        else trim (first_or "" (split_on b',' header))
    | none ↦ elim (r.real_ip) [ some ip ↦ ip | none ↦ "unknown" ]
  ]

  abbrev refused : ℕ → String → Option Reply
  refused status error = some (record { status = status; error = error })

  -- The `catch` of the two guards.
  abbrev pub caught : {A : Type 0} → Result A → Result (Option Reply)
  caught (ok a) = ok none
  caught (err (authentication m)) = ok (refused 401 m)
  caught (err e) = err e

  abbrev with_session : ℕ → String → Db → Result Bool → Result (Option Reply) × Db
  with_session now token db (err e) = (err e, db)
  with_session now token db (ok false) = (ok (refused 403 "cross-origin request rejected"), db)
  with_session now token db (ok true) =
      let (r, after) = authenticate_admin_session rt.hash now token db in (caught r, after)

  abbrev with_cookie : ℕ → Result Bool → Db → Result (Option String) → Result (Option Reply) × Db
  with_cookie now same_origin db (err e) = (err e, db)
  with_cookie now same_origin db (ok none) = (ok (refused 401 "authentication required"), db)
  with_cookie now same_origin db (ok (some token)) = with_session now token db same_origin

  -- `none` lets the request pass.
  unfoldable pub require_admin : Config → ℕ → Request → Exec Db (Option Reply)
  require_admin cfg now r db = elim (r.admin_token) [
    | some token ↦ (
      ok (if tokens_match token cfg.admin_token then none else refused 401 "invalid admin token"),
      db,
    )
    | none ↦ with_cookie now (is_same_origin r cfg.public_url) db (read_cookie r)
  ]

  unfoldable pub require_device : Request → String → Exec Db (Option Reply)
  require_device r device_id db = elim (r.authorization) [
    | none ↦ (ok (refused 401 "missing device bearer token"), db)
    | some header ↦
        if starts_with header "Bearer "
        then (
          caught (authenticate_device rt.hash device_id (slice header 7 (len header)) db).0,
          (authenticate_device rt.hash device_id (slice header 7 (len header)) db).1,
        )
        else (ok (refused 401 "missing device bearer token"), db)
  ]
