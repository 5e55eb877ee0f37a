-- ===== src/Sources/Refresh.antt =====
-- apps/web/src/lib/catalog.ts: a check of the declared sources. `fetch headers hop target` is the
-- answer of the network, `env` the environment, `parse` is `JSON.parse`, and `show` the text of a
-- number; the other parameters are those of Fetch and of Sources.
use Prim.Native.Char.{Char, code}
use relaydot.Prelude.{
  ℕ, ◌+◌, String, Bool, true, false, ◌&&◌, ◌||◌, Option, none, some, List, [], ◌∷◌, ◌++◌, ltb, leb,
  ◌==◌, ◌=ˢ◌, ◌+ˢ◌, if◌then◌else◌, length, join, Result, ok, err, Error, config, Exec, ◌>>=◌,
}
use relaydot.Json.{Number, Json, arr, obj, Items, nil, cons, Row, get, as_object, as_text}
use relaydot.Fetch.{Url, Response, fetch_limited}
use relaydot.Store.Schema.{Db, RunStatus, official_source}
use relaydot.Store.Catalog.{
  ObservedModel, observe_catalog_models, start_catalog_check, finish_catalog_check,
}
use relaydot.Sources.{ModelApiSource, ProviderSources, CatalogSources}

abbrev is_alphanumeric : Char → Bool
is_alphanumeric c =
    let n = code c in leb 48 n && leb n 57 || leb 65 n && leb n 90 || leb 97 n && leb n 122

-- `ref.replace(/[^a-zA-Z0-9]+/g, "_")`: `in_run` says that the character before was replaced.
abbrev replace_runs : Bool → String → String
replace_runs in_run String.[] = ""
replace_runs in_run (String.◌∷◌ c s) =
    let kept = replace_runs false s in
    let skipped = replace_runs true s in
    if is_alphanumeric c then String.◌∷◌ c kept else if in_run then skipped else "_" +ˢ skipped

pub credential_env_name : (String → String) → String → String
credential_env_name upper ref = "RELAYDOT_" +ˢ upper (replace_runs false ref)

pub auth_headers : String → String → List (String × String)
auth_headers provider_key credential =
    if provider_key =ˢ "anthropic"
    then ("x-api-key", credential) ∷ ("anthropic-version", "2023-06-01") ∷ []
    else ("authorization", "Bearer " +ˢ credential) ∷ []

abbrev name_or : String → Option String → String
name_or id none = id
name_or id (some name) = name

abbrev discovered_as :
    String → String → Row → Option String → List ObservedModel → List ObservedModel
discovered_as provider source_url item none models = models
discovered_as provider source_url item (some id) models =
    record {
      model_id = id;
      provider = provider;
      display_name = name_or id (as_text (get "display_name" item));
      origin = official_source;
      source_url = some source_url;
    }
    ∷ models

-- The loop over `data`: what is no object with an id is passed over.
pub read_items : String → String → Items → List ObservedModel
read_items provider source_url nil = []
read_items provider source_url (cons (obj item) rest) =
    discovered_as provider source_url item (as_text (get "id" item))
      (read_items provider source_url rest)
read_items provider source_url (cons _ rest) = read_items provider source_url rest

abbrev data_of : Option Json → Option Json
data_of value = elim (as_object value) [ some payload ↦ get "data" payload | none ↦ none ]

abbrev items_of : Option Json → Result Items
items_of (some (arr items)) = ok items
items_of _ = err (config "did not return a model list")

abbrev parsed : Option Json → Result Json
parsed none = err (config "did not return JSON")
parsed (some value) = ok value

pub read_model_list :
    (String → Option Json) → String → String → String → Result (List ObservedModel)
unfolding read_items
read_model_list parse body provider source_url = elim (parsed (parse body)) [
  | err e ↦ err e
  | ok payload ↦ elim (items_of (data_of (some payload))) [
    | err e ↦ err e
    | ok items ↦ ok (read_items provider source_url items)
  ]
]

-- What the loop over the providers counts and collects.
pub record Progress : Type 0 where
  pub notes : List String
  pub discovered : List ObservedModel
  pub failures : ℕ
  pub attempted : ℕ

abbrev pub no_progress : Progress
no_progress = record { notes = []; discovered = []; failures = 0; attempted = 0 }

abbrev note : String → Progress → Progress
note text p = record p { notes = p.notes ++ text ∷ [] }

abbrev failed_with : String → Progress → Progress
failed_with text p = record p { notes = p.notes ++ text ∷ []; failures = p.failures + 1 }

abbrev attempted_with :
    Result (List ObservedModel) → (Error → String) → String → Progress → Progress
attempted_with (err e) message label p = record p {
  notes = p.notes ++ message e ∷ [];
  failures = p.failures + 1;
  attempted = p.attempted + 1;
}
attempted_with (ok models) message label p = record p {
  notes = p.notes ++ label ∷ [];
  discovered = p.discovered ++ models;
  attempted = p.attempted + 1;
}

pub record CheckReport : Type 0 where
  pub status : RunStatus
  pub discovered : ℕ
  pub added : ℕ
  pub notes : List String

pub status_of : Progress → RunStatus
status_of p =
    if p.failures == 0
    then RunStatus.ok
    else if ltb p.failures p.attempted || ltb 0 (length p.discovered)
    then RunStatus.partial
    else RunStatus.failed

module _ (parse_url : String → Option Url) (resolve : String → String → Option String)
    (declares_over : String → Number → Bool) (decode : List ℕ → String)
    (parse : String → Option Json) (upper : String → String) (show : ℕ → String)
    (message : Error → String) (env : String → Option String)
    (fetch : List (String × String) → ℕ → String → Option Response) where
  abbrev body_of : Result (ℕ × String) → Result String
  body_of (err e) = err e
  body_of (ok (status, body)) =
      if status == 200 then ok body else err (config ("returned " +ˢ show status))

  abbrev listed : ProviderSources → String → Result String → Result (List ObservedModel)
  listed p url (err e) = err e
  listed p url (ok body) = read_model_list parse body p.provider url

  -- The `try` of a provider: the models that its list endpoint returns.
  pub query :
      CatalogSources → ProviderSources → ModelApiSource → String → Result (List ObservedModel)
  unfolding read_model_list auth_headers
  query sources p api credential = listed p api.url (
      body_of
        (fetch_limited parse_url resolve declares_over decode
          (fetch (auth_headers p.key credential)) sources.fetch sources.require_https api.url).1)

  abbrev models_of : Result (List ObservedModel) → ℕ
  models_of (ok models) = length models
  models_of (err e) = 0

  abbrev credential_of : ModelApiSource → Option String
  credential_of api = elim (api.credential_ref) [
    | none ↦ none
    | some ref ↦ elim (env (credential_env_name upper ref)) [
      | none ↦ none
      | some credential ↦ if credential =ˢ "" then none else some credential
    ]
  ]

  abbrev where_from : Option String → String
  where_from none = "configuration"
  where_from (some ref) = credential_env_name upper ref

  abbrev without_credential : ProviderSources → ModelApiSource → Progress → Progress
  without_credential p api s =
      let text = p.key +ˢ ": no credential in " +ˢ where_from api.credential_ref in
      if api.optional then note (text +ˢ "; skipped") s else failed_with text s

  abbrev queried : ProviderSources → Result (List ObservedModel) → Progress → Progress
  queried p r s =
      attempted_with r (λ e. p.key +ˢ ": " +ˢ message e)
        (p.key +ˢ ": " +ˢ show (models_of r) +ˢ " models listed") s

  abbrev check_api : CatalogSources → ProviderSources → ModelApiSource → Progress → Progress
  check_api sources p api s = elim (credential_of api) [
    | none ↦ without_credential p api s
    | some credential ↦ queried p (query sources p api credential) s
  ]

  -- The body of the loop.
  pub check_provider : CatalogSources → ProviderSources → Progress → Progress
  unfolding query credential_env_name
  check_provider sources p s = elim (p.model_api) [
    | none ↦ note (p.key +ˢ ": model API not enabled") s
    | some api ↦
        if api.enabled
        then check_api sources p api s
        else note (p.key +ˢ ": model API not enabled") s
  ]

  pub check_providers : CatalogSources → List ProviderSources → Progress → Progress
  check_providers sources [] s = s
  check_providers sources (p ∷ ps) s = check_providers sources ps (check_provider sources p s)

  abbrev pub finished : ℕ → String → Progress → Db → Result CheckReport × Db
  finished now id p db =
      let (added, after) = observe_catalog_models now p.discovered db in
      (
        ok (record {
          status = status_of p;
          discovered = length p.discovered;
          added = added;
          notes = p.notes;
        }),
        finish_catalog_check now id (status_of p) (length p.discovered) added (join "; " p.notes)
            after,
      )

  -- `started` and `now` are the times that the store reads at the start and at the end.
  unfoldable pub refresh_catalog : ℕ → ℕ → String → CatalogSources → Exec Db CheckReport
  unfolding check_providers status_of
  refresh_catalog started now id sources = start_catalog_check started id >>= λ id.
      finished now id (check_providers sources sources.providers no_progress)
