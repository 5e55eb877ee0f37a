-- ===== src/Webdav.antt =====
-- apps/web/src/lib/webdav.ts: the client of the shared object store. `send method path` is the answer
-- of the server, `none` where `fetch` throws; `decode` reads UTF-8; `encode` is
-- `encodeURIComponent`. What `parsePropfind` reads out of a body comes with the response, `none` where
-- it throws, on a path that does not decode.
use Prim.Native.Char.{Char, code}
use relaydot.Prelude.{
  ℕ, suc, String, Bool, true, false, not, ◌&&◌, ◌||◌, Option, none, some, List, [], ◌∷◌, map, ltb,
  leb, ◌==◌, ◌=ˢ◌, ◌+ˢ◌, if◌then◌else◌, select, join, split_on, slice, trim, ends_with, Result, ok,
  err, webdav, failure,
}

pub record WebdavConfig : Type 0 where
  pub base_url : String
  pub username : String
  pub password : String

pub record WebdavEntry : Type 0 where
  pub href : String
  pub name : String
  pub is_directory : Bool

pub record Answer : Type 0 where
  pub status : ℕ
  pub bytes : List ℕ
  pub entries : Option (List WebdavEntry)

-- `response.ok`.
abbrev is_ok : Answer → Bool
is_ok r = leb 200 r.status && ltb r.status 300

abbrev is_segment : String → Bool
is_segment segment = not (segment =ˢ "")

pub encode_segments : (String → String) → String → String
encode_segments encode path = join "/" (map encode (select is_segment (split_on b'/' path)))

-- A parsed URL: its protocol and path, and its text with another path, without query and fragment.
pub record Location : Type 0 where
  pub protocol : String
  pub pathname : String
  pub with_path : String → String

-- What the client takes from the runtime: `new URL(text)`, and the text of `new URL(path, base)`,
-- `none` where they throw; `encodeURIComponent`; base64 of the UTF-8 of a text; and `fetch`, by the
-- header `authorization`, the method and the URL.
pub record Network : Type 0 where
  pub parse_url : String → Option Location
  pub resolve : String → String → Option String
  pub encode_uri : String → String
  pub base64_of_text : String → String
  pub fetch : String → String → String → Option Answer

abbrev normal_path : String → String
normal_path pathname = if ends_with pathname "/" then pathname else pathname +ˢ "/"

abbrev located : String → Option Location → Result String
located text none = err (webdav ("WebDAV base URL is not a valid URL: " +ˢ text))
located text (some u) =
    if not (u.protocol =ˢ "http:") && not (u.protocol =ˢ "https:")
    then err (webdav "WebDAV base URL must use http or https")
    else ok (u.with_path (normal_path u.pathname))

unfoldable pub normalize_base_url : Network → String → Result String
normalize_base_url network raw =
    let trimmed = trim raw in
    if trimmed =ˢ ""
    then err (webdav "WebDAV base URL must not be empty")
    else located trimmed (network.parse_url trimmed)

-- The headers and the URL of a request; `url` stands in the `try` around `fetch`.
abbrev sent : Network → String → String → Option String → Option Answer
sent network authorization method none = none
sent network authorization method (some url) = network.fetch authorization method url

abbrev client_of : Network → WebdavConfig → Result String → Result (String → String → Option Answer)
client_of network c (err e) = err e
client_of network c (ok base_url) =
    let authorization = "Basic " +ˢ network.base64_of_text (c.username +ˢ ":" +ˢ c.password) in
    ok (λ method path.
      sent network authorization method
        (network.resolve (encode_segments network.encode_uri path) base_url))

-- The constructor: the client is what it sends.
unfoldable pub webdav_client : Network → WebdavConfig → Result (String → String → Option Answer)
unfolding encode_segments
webdav_client network c = client_of network c (normalize_base_url network c.base_url)

-- /^[0-9a-f]{64}$/
abbrev is_hex_digit : Char → Bool
is_hex_digit c = let n = code c in leb b'0' n && leb n b'9' || leb b'a' n && leb n b'f'

abbrev is_hex : String → Bool
is_hex String.[] = true
is_hex (String.◌∷◌ c s) = is_hex_digit c && is_hex s

abbrev characters : String → ℕ
characters String.[] = 0
characters (String.◌∷◌ c s) = suc (characters s)

unfoldable pub is_digest : String → Bool
is_digest s = characters s == 64 && is_hex s

unfoldable pub object_path : String → Result String
object_path digest =
    if is_digest digest
    then ok ("objects/" +ˢ slice digest 0 2 +ˢ "/" +ˢ digest)
    else err (webdav "digest must be lowercase SHA-256 hex")

pub manifest_path : String → String
manifest_path device_id = "manifests/" +ˢ device_id +ˢ ".json"

-- The loop of `ensureCollection`: the paths that it creates, one in the other.
pub ancestors : String → List String → List String
ancestors current [] = []
ancestors current (segment ∷ segments) =
    let next = if current =ˢ "" then segment else current +ˢ "/" +ˢ segment in
    next ∷ ancestors next segments

module _ (send : String → String → Option Answer) (decode : List ℕ → String) where
  abbrev accepted : Option Answer → Result Answer
  accepted none = err (webdav "WebDAV request failed")
  accepted (some r) =
      if r.status == 401 || r.status == 403
      then err (webdav "WebDAV rejected the credential")
      else ok r

  unfoldable pub request : String → String → Result Answer
  request method path = accepted (send method path)

  abbrev found : Answer → Result Bool
  found r =
      if r.status == 404
      then ok false
      else if not (r.status == 207) && not (is_ok r)
      then err (webdav "PROPFIND failed")
      else ok true

  pub exists : String → Result Bool
  unfolding request
  exists path = elim (request "PROPFIND" path) [ err e ↦ err e | ok r ↦ found r ]

  abbrev content : Answer → Result (Option (List ℕ))
  content r =
      if r.status == 404
      then ok none
      else if is_ok r
      then ok (some r.bytes)
      else err (webdav "GET failed")

  unfoldable pub get : String → Result (Option (List ℕ))
  get path = elim (request "GET" path) [ err e ↦ err e | ok r ↦ content r ]

  unfoldable pub get_text : String → Result (Option String)
  get_text path = elim (get path) [
    | err e ↦ err e
    | ok none ↦ ok none
    | ok (some bytes) ↦ ok (some (decode bytes))
  ]

  pub put : String → Result (Unit {0})
  unfolding request
  put path = elim (request "PUT" path) [
    | err e ↦ err e
    | ok r ↦ if not (is_ok r) && not (r.status == 204) then err (webdav "PUT failed") else ok tt
  ]

  pub mkcol : String → Result (Unit {0})
  unfolding request
  mkcol path = elim (request "MKCOL" path) [
    | err e ↦ err e
    | ok r ↦ if not (is_ok r) && not (r.status == 405) then err (webdav "MKCOL failed") else ok tt
  ]

  pub mkcol_each : List String → Result (Unit {0})
  unfolding mkcol
  mkcol_each [] = ok tt
  mkcol_each (path ∷ paths) =
      let rest = mkcol_each paths in elim (mkcol path) [ err e ↦ err e | ok _ ↦ rest ]

  unfoldable pub ensure_collection : String → Result (Unit {0})
  unfolding mkcol_each ancestors
  ensure_collection path = mkcol_each (ancestors "" (select is_segment (split_on b'/' path)))

  abbrev parsed : Option (List WebdavEntry) → Result (List WebdavEntry)
  parsed none = err (failure "URIError")
  parsed (some entries) = ok entries

  abbrev listing : Answer → Result (List WebdavEntry)
  listing r =
      if r.status == 404
      then ok []
      else if not (r.status == 207) && not (is_ok r)
      then err (webdav "PROPFIND failed")
      else parsed r.entries

  unfoldable pub list : String → Result (List WebdavEntry)
  list path = elim (request "PROPFIND" path) [ err e ↦ err e | ok r ↦ listing r ]
