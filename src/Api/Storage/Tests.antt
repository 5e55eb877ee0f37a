-- ===== src/Api/Storage/Tests.antt =====
-- A credential saved and handed out, with a cipher that seals nothing.
use Prim.Native.Char.{code}
use relaydot.Prelude.{
  Lacks, ℕ, zero, suc, String, none, some, List, [], ◌∷◌, ◌==◌, if◌then◌else◌, ◌≡◌, refl, ok, ap,
  result, after, ◌+ˢ◌, true, false, Option,
}
use relaydot.Json.{ratio, str, obj, end, field, Row}
use relaydot.Store.Schema.{Db, Draw, empty, audit}
use relaydot.Webdav.{Network, normalize_base_url, webdav_client, ensure_collection}
use relaydot.Store.Storage.{save_storage_backend, storage_backend, record_storage_probe}
use relaydot.Store.Enrollment.{authenticate_device}
use relaydot.Crypto.{Cipher, encrypt_secret, decrypt_secret, resolve_storage}
use relaydot.Ingest.{Host}
use relaydot.Sources.Loading.{Reader, Feed}
use relaydot.Access.{Runtime, Config, Request, require_admin, require_device}
use relaydot.Api.{storage_credential, json, handle, as_admin}
use relaydot.Api.Guards.{IsGuarded, IsHeld, storage_handlers-IsGuarded}
use relaydot.Api.Catalog.{catalog_handler, check_catalog_handler}
use relaydot.Api.Storage.{
  storage_handler, usage_ingest_status_handler, test_storage_handler, delete_storage_handler,
  ingest_now_handler, save_backend, probe_storage, probe_requests, save_storage_handler,
  device_storage_handler,
}
use relaydot.Api.Storage.Handout.{save_storage_handler-hands_out}

unary : ℕ → String → String
unary zero rest = String.◌∷◌ "b" rest
unary (suc n) rest = String.◌∷◌ "a" (unary n rest)

to_base64 : List ℕ → String
unfolding unary
to_base64 [] = ""
to_base64 (n ∷ ns) = unary n (to_base64 ns)

abbrev bump : List ℕ → List ℕ
bump [] = []
bump (n ∷ ns) = suc n ∷ ns

from_base64 : String → List ℕ
from_base64 String.[] = []
from_base64 (String.◌∷◌ c s) =
    let rest = from_base64 s in if code c == b'b' then 0 ∷ rest else bump rest

from_base64-unary : (n : ℕ) (s : String) → from_base64 (unary n s) ≡ n ∷ from_base64 s
unfolding from_base64 unary
from_base64-unary zero s = refl
from_base64-unary (suc n) s = ap bump (from_base64-unary n s)

from_base64-to_base64 : (b : List ℕ) → from_base64 (to_base64 b) ≡ b
unfolding from_base64 to_base64
from_base64-to_base64 [] = refl
from_base64-to_base64 (n ∷ ns) = rw (from_base64-unary n (to_base64 ns), from_base64-to_base64 ns)

unary-Lacks : (n : ℕ) (s : String) → Lacks b':' s → Lacks b':' (unary n s)
unfolding unary
unary-Lacks zero s h = (refl, h)
unary-Lacks (suc n) s h = (refl, unary-Lacks n s h)

to_base64-Lacks : (b : List ℕ) → Lacks b':' (to_base64 b)
unfolding to_base64
to_base64-Lacks [] = tt
to_base64-Lacks (n ∷ ns) = unary-Lacks n (to_base64 ns) (to_base64-Lacks ns)

-- The texts of the letters x and y.
abbrev to_utf8 : String → List ℕ
to_utf8 String.[] = []
to_utf8 (String.◌∷◌ c s) = code c ∷ to_utf8 s

abbrev from_utf8 : List ℕ → String
from_utf8 [] = ""
from_utf8 (n ∷ ns) =
    let rest = from_utf8 ns in if n == b'x' then String.◌∷◌ "x" rest else String.◌∷◌ "y" rest

abbrev cipher : Cipher
cipher = record {
  scrypt = λ passphrase salt n. [];
  seal = λ key iv plain. (iv, plain);
  unseal = λ key iv tag sealed. some sealed;
  to_base64 = to_base64;
  from_base64 = from_base64;
  to_utf8 = to_utf8;
  from_utf8 = from_utf8;
}

abbrev network : Network
network = record {
  parse_url = λ text.
      some (record {
        protocol = "https:";
        pathname = "/dav";
        with_path = λ path. "https://h" +ˢ path;
      });
  resolve = λ path base. none;
  encode_uri = λ s. s;
  base64_of_text = λ s. s;
  fetch = λ authorization method url. none;
}

abbrev host : Host
host = record {
  parse = λ text. none;
  sha256 = λ s. s;
  sha256_bytes = λ bytes. "";
  decode = λ bytes. "";
  parse_date = λ s. none;
  not_after = λ a b. true;
  stringify_event = λ row t. "event";
  to_number = λ value. none;
  as_time = λ value. none;
  message = λ e. "error";
}

abbrev rt : Runtime
rt = record {
  hash = λ s. s;
  origin_of = λ url. some url;
  host_of = λ url. some "relaydot.example.com";
  protocol_of = λ url. some "https:";
  encode_uri = λ s. s;
  decode_uri = λ s. some s;
}

abbrev cfg : Config
cfg = record { public_url = none; admin_token = "secret" }

abbrev body : Row
body =
    field "base_url" (str "https://h/dav")
      (field "username" (str "ann") (field "password" (str "xyx") end))

abbrev sends : Option String → Option String → Request
sends admin_token authorization = record {
  url = "https://relaydot.example.com/api";
  origin = none;
  host = some "relaydot.example.com";
  forwarded_host = none;
  forwarded_proto = none;
  forwarded_for = none;
  real_ip = none;
  admin_token = admin_token;
  authorization = authorization;
  cookie = none;
  limit = none;
  body = some (obj body);
}

abbrev one_device : Db
one_device = record empty {
  devices =
      record {
        id = "d1";
        name = "laptop";
        platform = "linux";
        agent_version = "1";
        public_key = none;
        token_hash = "token";
        enrolled_at = 1;
        last_seen_at = 1;
        revoked_at = none;
      }
      ∷ [];
}

abbrev draw : Draw
draw = record { now = 100; id = "s1"; token = "t"; audit_now = 100; audit_id = "a1" }

save_storage_handler-hands_out_example :
    result
      (device_storage_handler rt cipher (some (7 ∷ [])) (sends none (some "Bearer token")) "d1")
      (after
        (save_storage_handler rt cipher network host
          (some (7 ∷ []))
          cfg
          50
          draw
          101
          (3 ∷ [])
          (sends (some "secret") none))
        one_device)
    ≡ ok (
        json
          (storage_credential
            (record { base_url = "https://h/dav/"; username = "ann"; password = "xyx" }))
          200)
unfolding require_admin require_device authenticate_device normalize_base_url save_storage_handler
    as_admin handle save_backend probe_storage resolve_storage save_storage_backend storage_backend
    encrypt_secret decrypt_secret from_base64 to_base64 unary record_storage_probe webdav_client
    probe_requests audit ensure_collection
save_storage_handler-hands_out_example =
    save_storage_handler-hands_out cipher from_base64-to_base64 to_base64-Lacks
      (λ key iv plain. refl) (7 ∷ []) (3 ∷ []) "https://h/dav/" "ann" "xyx" refl network host 101
      draw (sends (some "secret") none) body "https://h/dav" refl refl refl refl refl rt cfg 50
      one_device one_device refl (sends none (some "Bearer token")) "d1" refl

abbrev reader : Reader
reader = record {
  read = λ path. ok "kind: CatalogSources";
  message = λ e. "error";
  yaml_message = λ e. "error";
  float = λ s. ratio false 0 0;
  quoted = λ s. s;
  is_inherited = λ s. false;
  to_text = λ v. "value";
  upper = λ s. s;
}

abbrev feed : Feed
feed = record {
  parse_url = λ url. none;
  resolve = λ path base. none;
  declares_over = λ text n. false;
  decode = λ bytes. "";
  parse = λ text. none;
  upper = λ s. s;
  show = λ n. "n";
  message = λ e. "error";
  env = λ name. none;
  fetch = λ headers now url. none;
}

abbrev asked : Request
asked = sends (some "secret") none

storage_handlers-IsGuarded_example :
    IsHeld rt asked "d1" one_device (device_storage_handler rt cipher (some (7 ∷ [])) asked "d1")
    × IsGuarded rt cfg 50 asked one_device (storage_handler rt cfg 50 asked)
    × IsGuarded rt cfg 50 asked one_device
        (save_storage_handler rt cipher network host (some (7 ∷ [])) cfg 50 draw 101 (3 ∷ []) asked)
    × IsGuarded rt cfg 50 asked one_device
        (test_storage_handler rt cipher network host (some (7 ∷ [])) cfg 50 101 asked)
    × IsGuarded rt cfg 50 asked one_device (delete_storage_handler rt cfg 50 draw asked)
    × IsGuarded rt cfg 50 asked one_device (usage_ingest_status_handler rt cfg 50 asked)
    × IsGuarded rt cfg 50 asked one_device
        (ingest_now_handler rt cipher network host (some (7 ∷ [])) cfg 50 "d1" asked)
    × IsGuarded rt cfg 50 asked one_device
        (catalog_handler rt reader (some "sources.yaml") cfg 50 asked)
    × IsGuarded rt cfg 50 asked one_device
        (check_catalog_handler rt reader feed (some "sources.yaml") cfg 50 101 101 "d1" asked)
storage_handlers-IsGuarded_example =
    storage_handlers-IsGuarded rt cipher network host reader feed (some (7 ∷ []))
      (some "sources.yaml") cfg 50 101 draw (3 ∷ []) asked "d1" one_device
