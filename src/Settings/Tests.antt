-- ===== src/Settings/Tests.antt =====
-- The settings of a few environments.
use relaydot.Prelude.{String, Option, none, some, ◌=ˢ◌, if◌then◌else◌, ok, err, failure, ◌≡◌, refl}
use relaydot.Settings.{admin_token, public_url, ingest_schedule}

abbrev sets : String → String → String → Option String
sets name value variable = if variable =ˢ name then some value else none

tokens :
    (admin_token (sets "RELAYDOT_ADMIN_TOKEN" "secret") ≡ ok "secret")
    × (admin_token (sets "RELAYDOT_ADMIN_TOKEN" "") ≡ ok "relaydot-development-only")
    × (admin_token (sets "NODE_ENV" "production")
        ≡ err (failure "RELAYDOT_ADMIN_TOKEN must be set; refusing to start with a default token"))
unfolding admin_token
tokens = (refl, refl, refl)

urls :
    (public_url (sets "RELAYDOT_PUBLIC_URL" "  ") (λ url. none) ≡ ok none)
    × (public_url (sets "RELAYDOT_PUBLIC_URL" " https://h/x ") (λ url. some "https://h")
        ≡ ok (some "https://h"))
unfolding public_url
urls = (refl, refl)

schedules :
    (ingest_schedule (sets "RELAYDOT_INGEST_SCHEDULE" " @every 1h") ≡ "@every 1h")
    × (ingest_schedule (λ name. none) ≡ "@every 5m")
unfolding ingest_schedule
schedules = (refl, refl)
