-- ===== src/Fetch.antt =====
-- apps/web/src/lib/catalog.ts: the fetch of a declared source under its limits. Parameters are what
-- the runtime provides: `parse_url` is `new URL(url)`, `resolve location base` is
-- `new URL(location, base).toString()`, both `none` where they throw; `fetch hop target` is the
-- answer to the request of a hop, `none` for a network failure or the abort of the timer;
-- `declares_over` is `Number(declared) > cap`, and `decode` reads UTF-8.
pub mod Limits
mod Tests
use Prim.Native.String.{len}
use relaydot.Json.{Number, exceeds}
use relaydot.Prelude.{
  ℕ, zero, suc, ◌+◌, String, Bool, true, false, not, ◌&&◌, Option, none, some, List, [], ◌∷◌, ◌++◌,
  ltb, leb, ◌=ˢ◌, if◌then◌else◌, any, length, Result, ok, err, Error, config, failure,
}

pub record FetchLimits : Type 0 where
  pub allowed_hosts : List String
  pub max_response_bytes : Number
  pub follow_redirects_only_within_allowed_hosts : Bool

pub record Url : Type 0 where
  pub href : String
  pub protocol : String
  pub hostname : String

-- A response's body: its text where there is no stream, or the chunks of bytes of the stream.
pub data Body : Type 0 where
  text : String → Body
  chunks : List (List ℕ) → Body

pub record Response : Type 0 where
  pub status : ℕ
  pub location : Option String
  pub content_length : Option String
  pub body : Body

abbrev pub admits : FetchLimits → Bool → Url → Bool
admits limits require_https u =
    not (require_https && not (u.protocol =ˢ "https:"))
    && any (λ host. host =ˢ u.hostname) limits.allowed_hosts

abbrev checked_url : FetchLimits → Bool → Option Url → Result Url
checked_url limits require_https none = err (config "not a valid URL")
checked_url limits require_https (some u) =
    if require_https && not (u.protocol =ˢ "https:")
    then err (config "source must use https")
    else if any (λ host. host =ˢ u.hostname) limits.allowed_hosts
    then ok u
    else err (config "host is not in spec.fetch.allowedHosts")

-- The loop of `readCapped`, with the total and the bytes read so far.
pub read_chunks : Number → ℕ → List ℕ → List (List ℕ) → Result (List ℕ)
read_chunks cap total bytes [] = ok bytes
read_chunks cap total bytes (c ∷ cs) =
    let rest = read_chunks cap (total + length c) (bytes ++ c) cs in
    if exceeds (total + length c) cap
    then err (config "response exceeded the configured byte cap")
    else rest

-- The targets requested, in order, and what the function returns or throws.
abbrev pub Fetched : Type 0
Fetched = List String × Result (ℕ × String)

module _ (parse_url : String → Option Url) (resolve : String → String → Option String)
    (declares_over : String → Number → Bool) (decode : List ℕ → String)
    (fetch : ℕ → String → Option Response) (limits : FetchLimits) (require_https : Bool) where
  unfoldable pub assert_allowed : String → Result Url
  assert_allowed url = checked_url limits require_https (parse_url url)

  abbrev is_over_declared : Option String → Bool
  is_over_declared none = false
  is_over_declared (some declared) = declares_over declared limits.max_response_bytes

  abbrev decoded : Result (List ℕ) → Result String
  decoded (ok bytes) = ok (decode bytes)
  decoded (err e) = err e

  abbrev read_body : Body → Result String
  read_body (text s) =
      if exceeds (len s) limits.max_response_bytes
      then err (config "response exceeded the configured byte cap")
      else ok s
  read_body (chunks cs) = decoded (read_chunks limits.max_response_bytes 0 [] cs)

  pub read_capped : Response → Result String
  unfolding read_chunks
  read_capped r =
      if is_over_declared r.content_length
      then err (config "response declares too many bytes")
      else read_body r.body

  abbrev with_status : ℕ → Result String → Result (ℕ × String)
  with_status status (ok s) = ok (status, s)
  with_status status (err e) = err e

  abbrev pub is_redirect : Response → Bool
  is_redirect r = leb 300 r.status && ltb r.status 400

  abbrev is_followed : Result Url → Option Error
  is_followed (ok u) = none
  is_followed (err e) = some e

  -- The check of a redirect's target, with the error that it throws.
  unfoldable pub refusal : String → Option Error
  refusal next =
      if limits.follow_redirects_only_within_allowed_hosts
      then is_followed (assert_allowed next)
      else none

  -- What a redirect makes of the target: the next one, or what the step throws.
  unfoldable pub next_target : String → Response → Result String
  next_target target r = elim (r.location) [
    | none ↦ err (config "redirect without a location")
    | some location ↦ elim (resolve location target) [
      | none ↦ err (failure "TypeError")
      | some next ↦ elim (refusal next) [ some e ↦ err e | none ↦ ok next ]
    ]
  ]

  abbrev pub requested : String → Fetched → Fetched
  requested target (targets, r) = (target ∷ targets, r)

  -- The loop over the hops, `left` of them to go.
  unfoldable pub fetch_hops : ℕ → ℕ → String → Fetched
  fetch_hops zero hop target = ([], err (config "too many redirects"))
  fetch_hops (suc left) hop target = elim (fetch hop target) [
    | none ↦ (target ∷ [], err (failure "fetch failed"))
    | some r ↦
        if is_redirect r
        then elim (next_target target r) [
          | err e ↦ (target ∷ [], err e)
          | ok next ↦ requested target (fetch_hops left (hop + 1) next)
        ]
        else (target ∷ [], with_status r.status (read_capped r))
  ]

  unfoldable pub fetch_limited : String → Fetched
  fetch_limited url = elim (assert_allowed url) [
    | err e ↦ ([], err e)
    | ok u ↦ fetch_hops 4 0 u.href
  ]
