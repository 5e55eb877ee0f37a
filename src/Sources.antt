-- ===== src/Sources.antt =====
-- apps/web/src/lib/catalog.ts: the declared sources, read from the value of the configuration file.
-- `to_text` is `String(value)` and `upper` is `toUpperCase` of the runtime. The entries of an object
-- are taken in the order of the text.
pub mod Refresh
pub mod Approvals
pub mod Loading
mod Tests
use relaydot.Prelude.{
  ℕ, String, Bool, true, false, not, Option, none, some, List, [], ◌∷◌, ◌=ˢ◌, if◌then◌else◌, Result,
  ok, err, config,
}
use relaydot.Prelude.Results.{◌>>=◌, ◌>>◌, map_result}
use relaydot.Json.{
  Number, ratio, Json, null, bool, num, str, arr, obj, Items, nil, cons, Fields, end, field, Row,
  get, as_text, as_string, is_finite,
}
use relaydot.Fetch.{FetchLimits}

pub record ModelApiSource : Type 0 where
  pub enabled : Bool
  pub optional : Bool
  pub url : String
  pub credential_ref : Option String

pub record ProviderSources : Type 0 where
  pub key : String
  pub provider : String
  pub model_api : Option ModelApiSource
  pub model_documents : List String
  pub pricing_documents : List String

-- `timezone` is always "UTC".
pub record CatalogSources : Type 0 where
  pub is_scheduled : Bool
  pub cron : String
  pub auto_apply : Bool
  pub providers : List ProviderSources
  pub total_timeout_seconds : Number
  pub fetch : FetchLimits
  pub require_https : Bool
  pub require_source_locator_per_rate : Bool
  pub require_nonnegative_rates : Bool
  pub block_on_rate_change_percent : Number

abbrev whole : ℕ → Number
whole n = ratio false n 0

abbrev pub provider_label : String → String
provider_label key = if key =ˢ "anthropic" then "claude" else key

abbrev pub mapping : Option Json → Result Row
mapping (some (obj fields)) = ok fields
mapping _ = err (config "must be a mapping")

-- `mapping(value ?? {}, …)`.
abbrev mapping_or_empty : Option Json → Result Row
mapping_or_empty none = ok end
mapping_or_empty (some null) = ok end
mapping_or_empty (some v) = mapping (some v)

abbrev list_error : Result (List String)
list_error = err (config "must be a list of strings")

abbrev texts : Items → Result (List String)
texts nil = ok []
texts (cons (str s) rest) = texts rest >>= λ ss. ok (s ∷ ss)
texts (cons _ rest) = list_error

abbrev pub string_list : Option Json → Result (List String)
string_list none = ok []
string_list (some null) = ok []
string_list (some (arr items)) = texts items
string_list (some _) = list_error

abbrev pub integer : Option Json → Number → Result Number
integer none fallback = ok fallback
integer (some null) fallback = ok fallback
integer (some (num n)) fallback = if is_finite n then ok n else err (config "must be a number")
integer (some _) fallback = err (config "must be a number")

-- `value !== false` and `value === true`.
abbrev pub is_not_false : Option Json → Bool
is_not_false (some (bool false)) = false
is_not_false _ = true

abbrev is_true : Option Json → Bool
is_true (some (bool true)) = true
is_true _ = false

abbrev entries : Fields → List (String × Json)
entries end = []
entries (field k v rest) = (k, v) ∷ entries rest

abbrev is_equal_to : String → Option Json → Bool
is_equal_to text (some (str s)) = s =ˢ text
is_equal_to text _ = false

abbrev check : Bool → String → Result (Unit {0})
check true message = ok tt
check false message = err (config message)

abbrev url_of : Option String → Result String
url_of none = err (config "modelApi.url must be a string")
url_of (some url) = ok url

pub model_api_of : Option Json → Result (Option ModelApiSource)
model_api_of none = ok none
model_api_of (some null) = ok none
model_api_of (some v) = do
  api ← mapping (some v)
  url ← url_of (as_text (get "url" api))
  ok (
      some (record {
        enabled = is_not_false (get "enabled" api);
        optional = is_not_false (get "optional" api);
        url = url;
        credential_ref = as_string (get "credentialRef" api);
      }))

pub provider_of_entry : String × Json → Result ProviderSources
unfolding model_api_of
provider_of_entry (key, raw) = do
  entry ← mapping (some raw)
  model_api ← model_api_of (get "modelApi" entry)
  model_documents ← string_list (get "modelDocuments" entry)
  pricing_documents ← string_list (get "pricingDocuments" entry)
  ok (record {
    key = key;
    provider = provider_label key;
    model_api = model_api;
    model_documents = model_documents;
    pricing_documents = pricing_documents;
  })

module _ (to_text : Json → String) (upper : String → String) where
  -- `String(value ?? fallback)`.
  abbrev text_or : String → Option Json → String
  text_or fallback none = fallback
  text_or fallback (some null) = fallback
  text_or fallback (some v) = to_text v

  unfoldable pub parse_catalog_sources : Json → Result CatalogSources
  unfolding provider_of_entry
  parse_catalog_sources value = do
    document ← mapping (some value)
    check (is_equal_to "relaydot.dev/v1alpha1" (get "apiVersion" document)) "unsupported apiVersion"
    check (is_equal_to "CatalogSources" (get "kind" document)) "kind must be CatalogSources"
    spec ← mapping (get "spec" document)
    schedule ← mapping_or_empty (get "schedule" spec)
    check (upper (text_or "UTC" (get "timezone" schedule)) =ˢ "UTC") "timezone must be UTC"
    fetch ← mapping_or_empty (get "fetch" spec)
    validation ← mapping_or_empty (get "validation" spec)
    declared ← mapping_or_empty (get "providers" spec)
    providers ← map_result provider_of_entry (entries declared)
    total_timeout_seconds ← integer (get "totalTimeoutSeconds" fetch) (whole 30)
    max_response_bytes ← integer (get "maxResponseBytes" fetch) (whole 10485760)
    allowed_hosts ← string_list (get "allowedHosts" fetch)
    percent ← integer (get "blockOnRateChangePercent" validation) (whole 50)
    ok (record {
      is_scheduled = is_not_false (get "enabled" schedule);
      cron = text_or "0 4 * * *" (get "cron" schedule);
      auto_apply = is_true (get "autoApply" spec);
      providers = providers;
      total_timeout_seconds = total_timeout_seconds;
      fetch = record {
        allowed_hosts = allowed_hosts;
        max_response_bytes = max_response_bytes;
        follow_redirects_only_within_allowed_hosts =
            is_not_false (get "followRedirectsOnlyWithinAllowedHosts" fetch);
      };
      require_https = is_not_false (get "requireHttps" validation);
      require_source_locator_per_rate = is_not_false (get "requireSourceLocatorPerRate" validation);
      require_nonnegative_rates = is_not_false (get "requireNonnegativeRates" validation);
      block_on_rate_change_percent = percent;
    })
