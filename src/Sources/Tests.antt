-- ===== src/Sources/Tests.antt =====
-- A check of the catalog at one source that lists a model.
use relaydot.Prelude.{ℕ, String, Bool, false, true, Option, none, some, List, [], ◌∷◌, after, Error}
use relaydot.Json.{Number, ratio, Json, str, arr, obj, nil, cons, end, field}
use relaydot.Store.Schema.{empty}
use relaydot.Store.Catalog.Queue.{IsListed}
use relaydot.Fetch.{Url, text, Response}
use relaydot.Sources.{ProviderSources, CatalogSources}
use relaydot.Sources.Refresh.{refresh_catalog}
use relaydot.Sources.Approvals.{KeepsUsage, refresh_catalog-keeps}

abbrev parse_url : String → Option Url
parse_url s = some (record { href = s; protocol = "https:"; hostname = "api.example.com" })

abbrev resolve : String → String → Option String
resolve location base = none

abbrev declares_over : String → Number → Bool
declares_over declared cap = false

abbrev decode : List ℕ → String
decode bytes = "{}"

abbrev parse : String → Option Json
parse body = some (obj (field "data" (arr (cons (obj (field "id" (str "model-1") end)) nil)) end))

abbrev same : String → String
same s = s

abbrev show : ℕ → String
show n = "1"

abbrev message : Error → String
message e = "error"

abbrev env : String → Option String
env name = some "key"

abbrev fetch : List (String × String) → ℕ → String → Option Response
fetch headers hop target =
    some (record { status = 200; location = none; content_length = none; body = text "{}" })

abbrev number : ℕ → Number
number n = ratio false n 0

abbrev source : ProviderSources
source = record {
  key = "openai";
  provider = "openai";
  model_api = some (record {
    enabled = true;
    optional = true;
    url = "https://api.example.com/v1/models";
    credential_ref = some "openai-key";
  });
  model_documents = [];
  pricing_documents = [];
}

abbrev sources : CatalogSources
sources = record {
  is_scheduled = true;
  cron = "0 6 * * 1";
  auto_apply = false;
  providers = source ∷ [];
  total_timeout_seconds = number 60;
  fetch = record {
    allowed_hosts = "api.example.com" ∷ [];
    max_response_bytes = number 100;
    follow_redirects_only_within_allowed_hosts = true;
  };
  require_https = true;
  require_source_locator_per_rate = true;
  require_nonnegative_rates = true;
  block_on_rate_change_percent = number 50;
}

refresh_catalog-keeps_example :
    KeepsUsage empty (
      after
        (refresh_catalog parse_url resolve declares_over decode parse same show message env fetch 1
          2 "check1" sources)
        empty)
    × IsListed (
        after
          (refresh_catalog parse_url resolve declares_over decode parse same show message env fetch
            1 2 "check1" sources)
          empty)
refresh_catalog-keeps_example =
    refresh_catalog-keeps parse_url resolve declares_over decode parse same show message env fetch 1
      2 "check1" sources empty tt
