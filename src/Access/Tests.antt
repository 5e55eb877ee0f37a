-- ===== src/Access/Tests.antt =====
-- A request of the dashboard, with the cookie of a live session.
use relaydot.Prelude.{◌≡◌, refl, none, some, [], ◌∷◌, ◌⊎◌, ok, result}
use relaydot.Store.Schema.{Device, Db, empty}
use relaydot.Store.Enrollment.{authenticate_device}
use relaydot.Store.Sessions.{authenticate_admin_session}
use relaydot.Access.{
  Runtime, Config, Request, read_cookie, is_same_origin, require_admin, require_device,
}
use relaydot.Access.Admission.{
  HasToken, HasSession, HasDevice, require_admin-passes, require_device-passes,
}

abbrev rt : Runtime
rt = record {
  hash = λ s. s;
  origin_of = λ url. some url;
  host_of = λ url. some "relaydot.example.com";
  protocol_of = λ url. some "https:";
  encode_uri = λ s. s;
  decode_uri = λ s. some s;
}

abbrev cfg : Config
cfg = record { public_url = none; admin_token = "secret" }

abbrev device : Device
device = record {
  id = "d1";
  name = "laptop";
  platform = "linux";
  agent_version = "1";
  public_key = none;
  token_hash = "device secret";
  enrolled_at = 1;
  last_seen_at = 1;
  revoked_at = none;
}

abbrev one_session : Db
one_session = record empty {
  sessions =
      record {
        id = "s1";
        token_hash = "cookie";
        created_at = 1;
        expires_at = 100;
        last_seen_at = 1;
        revoked_at = none;
      }
      ∷ [];
  devices = device ∷ [];
}

abbrev request : Request
request = record {
  url = "https://relaydot.example.com/api";
  origin = some "https://relaydot.example.com";
  host = some "relaydot.example.com";
  forwarded_host = none;
  forwarded_proto = none;
  forwarded_for = none;
  real_ip = none;
  admin_token = none;
  authorization = some "Bearer device secret";
  cookie = some "theme=dark; relaydot_session=cookie";
  limit = none;
  body = none;
}

reads_cookie : read_cookie rt request ≡ ok (some "cookie")
unfolding read_cookie
reads_cookie = refl

passes : result (require_admin rt cfg 9 request) one_session ≡ ok none
unfolding require_admin is_same_origin read_cookie authenticate_admin_session
passes = refl

require_admin-passes_example : HasToken rt cfg request ⊎ HasSession rt cfg 9 request one_session
require_admin-passes_example = require_admin-passes rt cfg 9 request one_session passes

passes_device : result (require_device rt request "d1") one_session ≡ ok none
unfolding require_device authenticate_device
passes_device = refl

require_device-passes_example : HasDevice rt "d1" request one_session
require_device-passes_example = require_device-passes rt "d1" request one_session passes_device
