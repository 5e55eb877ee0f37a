-- ===== src/Settings.antt =====
-- apps/web/src/lib/config.ts: the settings that stand in the environment. `env` is `process.env`,
-- `origin_of` the origin of `new URL(text)`, `none` where it throws, and `default_sources` the path of
-- the repository's own file, by `resolve` and the working directory.
mod Tests
use relaydot.Prelude.{
  ℕ, String, Option, none, some, List, ◌=ˢ◌, ◌+ˢ◌, if◌then◌else◌, trim, Result, ok, err, failure,
}
use relaydot.Prelude.Results.{◌>>=◌}
use relaydot.Crypto.{Cipher, derive_secret_key}

abbrev development_token : String
development_token = "relaydot-development-only"

-- The value of a variable, unless it is unset or empty; `trimmed` where the program trims it first.
abbrev nonempty : Option String → Option String
nonempty none = none
nonempty (some value) = if value =ˢ "" then none else some value

abbrev trimmed : Option String → Option String
trimmed none = none
trimmed (some value) = some (trim value)

abbrev default_token : Option String → Result String
default_token none = ok development_token
default_token (some mode) =
    if mode =ˢ "production"
    then err (failure "RELAYDOT_ADMIN_TOKEN must be set; refusing to start with a default token")
    else ok development_token

module _ (env : String → Option String) where
  unfoldable pub admin_token : Result String
  admin_token = elim (nonempty (env "RELAYDOT_ADMIN_TOKEN")) [
    | some token ↦ ok token
    | none ↦ default_token (env "NODE_ENV")
  ]

  abbrev origin_or_error : String → Option String → Result (Option String)
  origin_or_error configured (some origin) = ok (some origin)
  origin_or_error configured none =
      err
        (failure ("RELAYDOT_PUBLIC_URL must be an absolute URL, received \"" +ˢ configured +ˢ "\""))

  unfoldable pub public_url : (String → Option String) → Result (Option String)
  public_url origin_of = elim (nonempty (trimmed (env "RELAYDOT_PUBLIC_URL"))) [
    | none ↦ ok none
    | some configured ↦ origin_or_error configured (origin_of configured)
  ]

  unfoldable pub secret_key : Cipher → Result (List ℕ)
  secret_key cipher = elim (nonempty (env "RELAYDOT_SECRET_KEY")) [
    | some dedicated ↦ derive_secret_key cipher dedicated
    | none ↦ admin_token >>= derive_secret_key cipher
  ]

  unfoldable pub catalog_sources_path : String → String
  catalog_sources_path default_sources =
      elim (nonempty (trimmed (env "RELAYDOT_CATALOG_SOURCES"))) [
        | some configured ↦ configured
        | none ↦ default_sources
      ]

  unfoldable pub ingest_schedule : String
  ingest_schedule = elim (nonempty (trimmed (env "RELAYDOT_INGEST_SCHEDULE"))) [
    | some configured ↦ configured
    | none ↦ "@every 5m"
  ]
