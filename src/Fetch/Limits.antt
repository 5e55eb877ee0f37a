-- ===== src/Fetch/Limits.antt =====
-- apps/web/src/lib/catalog.ts: what the limits of a fetch guarantee.
use relaydot.Prelude.{
  ℕ, zero, suc, ◌+◌, ◌≤◌, String, Bool, true, false, Option, some, List, [], ◌∷◌, ◌++◌, ◌≡◌, length,
  length-append, All, ok, arith, Option-cases, Result-cases, inl, inr,
}
use relaydot.Json.{Number, exceeds}
use relaydot.Fetch.{
  FetchLimits, Url, Response, admits, read_chunks, assert_allowed, refusal, next_target, fetch_hops,
  fetch_limited,
}

-- When the bytes read so far are as many as the running total, and that does not exceed the cap, the
-- bytes that the reader returns do not exceed the cap either, whatever the chunks that follow.
pub read_chunks-le :
    (cap : Number) (total : ℕ) (bytes out : List ℕ) (cs : List (List ℕ))
    → length bytes ≡ total
    → exceeds total cap ≡ false
    → read_chunks cap total bytes cs ≡ ok out
    → exceeds (length out) cap ≡ false
unfolding read_chunks
read_chunks-le cap total bytes out [] l h e = ground arith
read_chunks-le cap total bytes out (c ∷ cs) l h e =
    ground (arith, length-append bytes c, read_chunks-le cap (total + length c) (bytes ++ c) out cs)

module _ (parse_url : String → Option Url) (resolve : String → String → Option String)
    (declares_over : String → Number → Bool) (decode : List ℕ → String)
    (fetch : ℕ → String → Option Response) (limits : FetchLimits) (require_https : Bool) where
  -- A target that the allowlist admits, over https where that is required.
  abbrev pub IsAdmitted : String → Type 0
  IsAdmitted target =
      (u : Url) × (parse_url target ≡ some u) × (admits limits require_https u ≡ true)

  assert_allowed-IsAdmitted :
      (url : String) (u : Url)
      → assert_allowed parse_url resolve declares_over decode fetch limits require_https url ≡ ok u
      → (parse_url url ≡ some u) × (admits limits require_https u ≡ true)
  unfolding assert_allowed
  assert_allowed-IsAdmitted url u h = elim (Option-cases (parse_url url)) [
    | inl e ↦ absurd (ground arith)
    | inr (v, e) ↦ (ground arith, ground arith)
  ]

  next_target-IsAdmitted :
      (target next : String) (r : Response)
      → limits.follow_redirects_only_within_allowed_hosts ≡ true
      → next_target parse_url resolve declares_over decode fetch limits require_https target r
        ≡ ok next
      → IsAdmitted next
  unfolding next_target refusal
  next_target-IsAdmitted target next r f h =
      elim (Result-cases
        (assert_allowed parse_url resolve declares_over decode fetch limits require_https next)) [
          | inl (u, e) ↦
              let (p, q) = assert_allowed-IsAdmitted next u e in (u, ground arith, ground arith)
          | inr (x, e) ↦ absurd (ground arith)
        ]

  fetch_hops-IsAdmitted :
      (left hop : ℕ) (target : String)
      → limits.follow_redirects_only_within_allowed_hosts ≡ true
      → IsAdmitted target
      → All IsAdmitted
          (fetch_hops parse_url resolve declares_over decode fetch limits require_https left hop
            target).0
  unfolding fetch_hops
  fetch_hops-IsAdmitted zero hop target f h = tt
  fetch_hops-IsAdmitted (suc left) hop target f h = elim (Option-cases (fetch hop target)) [
    | inl e ↦ ground (arith, h)
    | inr (r, e) ↦
        elim (Result-cases (
          next_target parse_url resolve declares_over decode fetch limits require_https target r)) [
            | inl (next, k) ↦ ground (
              arith,
              fetch_hops-IsAdmitted left (hop + 1) next f
                  (next_target-IsAdmitted target next r f k),
            )
            | inr (x, k) ↦ ground arith
          ]
  ]

  fetch_hops-length :
      (left hop : ℕ) (target : String)
      → length
          (fetch_hops parse_url resolve declares_over decode fetch limits require_https left hop
            target).0
        ≤ left
  unfolding fetch_hops
  fetch_hops-length zero hop target = omega arith
  fetch_hops-length (suc left) hop target = elim (Option-cases (fetch hop target)) [
    | inl e ↦ ground arith
    | inr (r, e) ↦
        elim (Result-cases (
          next_target parse_url resolve declares_over decode fetch limits require_https target r)) [
            | inl (next, k) ↦ ground (arith, fetch_hops-length left (hop + 1) next)
            | inr (x, k) ↦ ground arith
          ]
  ]

  -- With redirects kept within the allowed hosts, `fetchLimited` requests only targets whose host is
  -- allowed, over https where that is required, and at most four of them. It relies on the
  -- serialization of a URL, which parses to that URL again.
  pub fetch_limited-IsAdmitted :
      (url : String)
      → ((text : String) (u : Url) → parse_url text ≡ some u → parse_url u.href ≡ some u)
      → limits.follow_redirects_only_within_allowed_hosts ≡ true
      → let (targets, r) =
          fetch_limited parse_url resolve declares_over decode fetch limits require_https url in
        All IsAdmitted targets × (length targets ≤ 4)
  unfolding fetch_limited
  fetch_limited-IsAdmitted url serialized f =
      elim (Result-cases
        (assert_allowed parse_url resolve declares_over decode fetch limits require_https url)) [
          | inl (u, e) ↦
              let (p, q) = assert_allowed-IsAdmitted url u e in
              let admitted = fetch_hops-IsAdmitted 4 0 u.href f (u, serialized url u p, q) in
              (ground (arith, admitted), ground (arith, fetch_hops-length 4 0 u.href))
          | inr (x, e) ↦ (ground arith, ground arith)
        ]
