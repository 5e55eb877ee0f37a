-- ===== src/Fetch/Tests.antt =====
-- The limits of a fetch at a source that redirects once within the allowed host.
use relaydot.Prelude.{
  ℕ, zero, suc, ◌≤◌, ◌≡◌, refl, String, Bool, true, false, Option, none, some, List, [], ◌∷◌, All,
  length, ok, arith,
}
use relaydot.Json.{Number, ratio}
use relaydot.Fetch.{FetchLimits, Url, text, chunks, Response, read_chunks, fetch_limited}
use relaydot.Fetch.Limits.{IsAdmitted, fetch_limited-IsAdmitted}

-- A parser for the URLs of one host, which are written as they are read.
abbrev parse_url : String → Option Url
parse_url s = some (record { href = s; protocol = "https:"; hostname = "api.example.com" })

abbrev resolve : String → String → Option String
resolve location base = some "https://api.example.com/v2/models"

abbrev declares_over : String → Number → Bool
declares_over declared cap = false

abbrev decode : List ℕ → String
decode bytes = "{}"

abbrev redirect : Response
redirect = record {
  status = 302;
  location = some "/v2/models";
  content_length = none;
  body = text "";
}

abbrev answer : Response
answer = record {
  status = 200;
  location = none;
  content_length = none;
  body = chunks ((123 ∷ 125 ∷ []) ∷ []);
}

abbrev fetch : ℕ → String → Option Response
fetch zero target = some redirect
fetch (suc hop) target = some answer

abbrev ten : Number
ten = ratio false 10 0

abbrev limits : FetchLimits
limits = record {
  allowed_hosts = "api.example.com" ∷ [];
  max_response_bytes = ten;
  follow_redirects_only_within_allowed_hosts = true;
}

parse_url-href : (s : String) (u : Url) → parse_url s ≡ some u → parse_url u.href ≡ some u
parse_url-href s u e = ground arith

fetch_limited-IsAdmitted_example :
    let (targets, r) =
      fetch_limited parse_url resolve declares_over decode fetch limits true
        "https://api.example.com/models" in
    All (IsAdmitted parse_url resolve declares_over decode fetch limits true) targets
    × (length targets ≤ 4)
fetch_limited-IsAdmitted_example =
    fetch_limited-IsAdmitted parse_url resolve declares_over decode fetch limits true
      "https://api.example.com/models" parse_url-href refl

abbrev bytes : List ℕ
bytes = 1 ∷ 2 ∷ 3 ∷ []

reads : read_chunks ten 0 [] ((1 ∷ 2 ∷ []) ∷ (3 ∷ []) ∷ []) ≡ ok (1 ∷ 2 ∷ 3 ∷ [])
unfolding read_chunks
reads = refl
