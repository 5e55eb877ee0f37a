-- ===== src/Sources/Loading.antt =====
-- apps/web/src/lib/catalog.ts: loadCatalogSources, from the path of the configuration file to the
-- declared sources. `Reader` holds what the runtime provides: `read` is `readFileSync`,
-- `message` and `yaml_message` the text of an error, and the others are those of Yaml and Sources.
-- `Feed` holds what refreshCatalog takes from it.
use relaydot.Prelude.{ℕ, String, Bool, Option, List, ◌+ˢ◌, Result, ok, err, Error, failure, Exec}
use relaydot.Prelude.Results.{◌>>=◌}
use relaydot.Json.{Number, Json}
use relaydot.Store.Schema.{Db}
use relaydot.Yaml.{YamlError, Outcome, done, thrown, unfinished}
use relaydot.Yaml.Blocks.{parse_yaml}
use relaydot.Fetch.{Url}
use relaydot.Fetch
use relaydot.Sources.{CatalogSources, parse_catalog_sources}
use relaydot.Sources.Refresh.{CheckReport, refresh_catalog}

-- The declared sources, or the text of the error.
pub data Loaded : Type 0 where
  loaded : CatalogSources → Loaded
  unavailable : String → Loaded

pub record Reader : Type 0 where
  pub read : String → Result String
  pub message : Error → String
  pub yaml_message : YamlError → String
  pub float : String → Number
  pub quoted : String → String
  pub is_inherited : String → Bool
  pub to_text : Json → String
  pub upper : String → String

pub record Feed : Type 0 where
  pub parse_url : String → Option Url
  pub resolve : String → String → Option String
  pub declares_over : String → Number → Bool
  pub decode : List ℕ → String
  pub parse : String → Option Json
  pub upper : String → String
  pub show : ℕ → String
  pub message : Error → String
  pub env : String → Option String
  pub fetch : List (String × String) → ℕ → String → Option Fetch.Response

abbrev pub refresh : Feed → ℕ → ℕ → String → CatalogSources → Exec Db CheckReport
refresh f =
    refresh_catalog f.parse_url f.resolve f.declares_over f.decode f.parse f.upper f.show f.message
      f.env f.fetch

module _ (reader : Reader) where
  -- `unfinished` has no counterpart in the program.
  abbrev document : Outcome Json → Result Json
  document (done value) = ok value
  document (thrown e) = err (failure (reader.yaml_message e))
  document unfinished = err (failure "unfinished")

  -- `parseCatalogSources(text)`.
  abbrev pub parse_text : String → Result CatalogSources
  parse_text text =
      document (parse_yaml reader.float reader.quoted reader.is_inherited text)
      >>= parse_catalog_sources reader.to_text reader.upper

  abbrev parsed : String → Result CatalogSources → Loaded
  parsed path (ok sources) = loaded sources
  parsed path (err e) = unavailable (path +ˢ ": " +ˢ reader.message e)

  abbrev opened : String → Result String → Loaded
  opened path (ok text) = parsed path (parse_text text)
  opened path (err e) = unavailable ("cannot read " +ˢ path +ˢ ": " +ˢ reader.message e)

  unfoldable pub load_catalog_sources : String → Loaded
  load_catalog_sources path = opened path (reader.read path)
