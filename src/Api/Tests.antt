-- ===== src/Api/Tests.antt =====
-- The handlers at concrete requests.
use relaydot.Prelude.{
  ◌≡◌, refl, String, Option, none, some, [], ◌∷◌, ◌⊎◌, err, authentication, result, after,
}
use relaydot.Json.{Number, Json, null, str, obj, int, end, field}
use relaydot.Store.Schema.{ModelPrice, Db, Draw, empty}
use relaydot.Store.Sessions.{authenticate_admin_session}
use relaydot.Store.Catalog.{model_prices}
use relaydot.Throttle.{Throttle}
use relaydot.Access.{Runtime, Config, Request, read_cookie, is_same_origin, require_admin}
use relaydot.Api.{handle, as_admin}
use relaydot.Api.Devices.{
  create_enrollment_token_handler, create_command_handler, heartbeat_handler,
  claim_commands_handler, acknowledge_command_handler,
}
use relaydot.Api.Prices.{
  save_price_handler, delete_price_handler, set_catalog_status_handler, save_row, rate_change_guard,
  guard_fields,
}
use relaydot.Api.Prices.Review.{IsApproval, save_price_handler-IsApproval}
use relaydot.Api.Rates.{read_price}
use relaydot.Api.Guards.{
  IsAdminOnly, IsDeviceOnly, admin_handlers-IsAdminOnly, device_handlers-IsDeviceOnly,
}
use relaydot.Api.SignIn.{sign_in_finish, sign_out}
use relaydot.Api.SignIn.Refusals.{SendsSecret, sign_in_finish-SendsSecret, sign_out-refuses}

abbrev rt : Runtime
rt = record {
  hash = λ s. s;
  origin_of = λ url. some url;
  host_of = λ url. some "relaydot.example.com";
  protocol_of = λ url. some "https:";
  encode_uri = λ s. s;
  decode_uri = λ s. some s;
}

abbrev cfg : Config
cfg = record { public_url = none; admin_token = "secret" }

abbrev sends : Option String → Option String → Json → Request
sends admin_token cookie body = record {
  url = "https://relaydot.example.com/api";
  origin = none;
  host = some "relaydot.example.com";
  forwarded_host = none;
  forwarded_proto = none;
  forwarded_for = none;
  real_ip = none;
  admin_token = admin_token;
  authorization = some "Bearer device";
  cookie = cookie;
  limit = none;
  body = some body;
}

abbrev draw : Draw
draw = record { now = 100; id = "s1"; token = "cookie"; audit_now = 100; audit_id = "a1" }

abbrev show : Number → String
show n = "number"

abbrev price : ModelPrice
price = record {
  model_id = "m";
  provider = "claude";
  display_name = "M";
  rates = record {
    input_uncached = 5000000;
    cache_write_5m = 5000000;
    cache_write_1h = 5000000;
    cache_write_other = 5000000;
    cache_read = 5000000;
    output = 25000000;
  };
  updated_at = 1;
  source_url = "https://example.com";
  approved_by = "operator";
  effective_date = "";
}

abbrev one_price : Db
one_price = record empty { prices = price ∷ [] }

-- The input rate moves by 20 percent.
abbrev new_price : Request
new_price = sends (some "secret") none (
    obj (
      field "model_id" (str "m") (
        field "provider" (str "claude") (
          field "source_url" (str "https://example.com")
            (field "input_usd_per_mtok" (int 6) (field "output_usd_per_mtok" (int 25) end))))))

save_price_handler-IsApproval_example :
    IsApproval show show rt none cfg 7 new_price 50 0
      (after (require_admin rt cfg 7 new_price) one_price)
      (after (save_price_handler show show rt none cfg 7 new_price) one_price)
unfolding save_price_handler as_admin require_admin handle save_row rate_change_guard guard_fields
    read_price model_prices
save_price_handler-IsApproval_example =
    save_price_handler-IsApproval show show rt none cfg 7 new_price 50 0 "m" one_price refl refl

admin_handlers-IsAdminOnly_example :
    IsAdminOnly rt cfg 7 new_price one_price
      (create_enrollment_token_handler rt cfg 7 draw new_price)
    × IsAdminOnly rt cfg 7 new_price one_price
        (create_command_handler rt (λ v. "{}") (λ t. none) (λ t. 1) cfg 7 draw new_price "m")
    × IsAdminOnly rt cfg 7 new_price one_price
        (save_price_handler show show rt none cfg 7 new_price)
    × IsAdminOnly rt cfg 7 new_price one_price (delete_price_handler rt cfg 7 new_price "m")
    × IsAdminOnly rt cfg 7 new_price one_price (set_catalog_status_handler rt cfg 7 new_price "m")
admin_handlers-IsAdminOnly_example =
    admin_handlers-IsAdminOnly rt show show (λ v. "{}") (λ t. none) (λ t. 1) none cfg 7 draw
      new_price "m" one_price

device_handlers-IsDeviceOnly_example :
    IsDeviceOnly rt new_price "d1" one_price (heartbeat_handler rt 7 new_price "d1")
    × IsDeviceOnly rt new_price "d1" one_price
        (claim_commands_handler rt (λ v. "{}") (λ t. none) (λ t. some 10) 7 new_price "d1")
    × IsDeviceOnly rt new_price "d1" one_price
        (acknowledge_command_handler rt (λ v. "{}") (λ t. none) draw new_price "d1" "c1")
device_handlers-IsDeviceOnly_example =
    device_handlers-IsDeviceOnly rt (λ v. "{}") (λ t. none) (λ t. some 10) 7 draw new_price "d1"
      "c1" one_price

abbrev idle : Throttle
idle = record { attempts = []; next = 0 }

abbrev password : Request
password = sends none none (obj (field "token" (str "secret") end))

sign_in_finish-SendsSecret_example :
    ((after (sign_in_finish rt cfg 100 draw 0 password) (empty, idle)).0 ≡ empty)
    ⊎ SendsSecret rt cfg password
sign_in_finish-SendsSecret_example =
    sign_in_finish-SendsSecret rt cfg 100 0 draw password empty idle

abbrev with_cookie : Request
with_cookie = sends none (some "relaydot_session=cookie") null

sign_out-refuses_example :
    result
      (authenticate_admin_session rt.hash 200 "cookie")
      (after (sign_out rt cfg draw with_cookie) empty)
    ≡ err (authentication "invalid or expired session")
unfolding read_cookie is_same_origin
sign_out-refuses_example = sign_out-refuses rt cfg draw "cookie" 200 with_cookie empty refl refl
