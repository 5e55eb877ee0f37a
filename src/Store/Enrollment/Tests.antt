-- ===== src/Store/Enrollment/Tests.antt =====
-- The enrollment theorems at a database that holds one token.
use relaydot.Prelude.{
  ◌≡◌, refl, String, none, List, [], ◌∷◌, ok, err, authentication, result, after,
}
use relaydot.Store.Schema.{EnrollmentToken, Db, Draw, empty}
use relaydot.Store.Enrollment.{
  EnrollInput, Credentials, device_row, enroll_device, authenticate_device,
}
use relaydot.Store.Enrollment.OneTime.{
  Request, issue, beat, serve_all, enroll_device-err, enroll_device-once,
  enroll_device-authenticates,
}

abbrev hash : String → String
hash s = s

abbrev token : EnrollmentToken
token = record {
  id = "t1";
  token_hash = "secret";
  created_at = 1;
  expires_at = 100;
  consumed_at = none;
  consumed_by = none;
}

abbrev one_token : Db
one_token = record empty { tokens = token ∷ [] }

abbrev draw : Draw
draw = record { now = 5; id = "d1"; token = "device secret"; audit_id = "a1"; audit_now = 5 }

abbrev next_draw : Draw
next_draw = record { now = 9; id = "d2"; token = "other secret"; audit_id = "a2"; audit_now = 9 }

abbrev input : EnrollInput
input = record {
  token = "secret";
  name = "laptop";
  platform = "linux";
  agent_version = "1";
  public_key = none;
}

abbrev wrong_input : EnrollInput
wrong_input = record input { token = "guess" }

abbrev credentials : Credentials
credentials = record { device_id = "d1"; device_token = "device secret" }

abbrev requests : List Request
requests = issue next_draw 60 ∷ beat 8 "d1" "2" ∷ []

enrolls : result (enroll_device hash draw input) one_token ≡ ok credentials
unfolding enroll_device
enrolls = refl

refuses :
    result (enroll_device hash draw wrong_input) one_token
    ≡ err (authentication "invalid, expired, or consumed enrollment token")
unfolding enroll_device
refuses = refl

enroll_device-err_example : after (enroll_device hash draw wrong_input) one_token ≡ one_token
enroll_device-err_example =
    enroll_device-err hash draw wrong_input one_token
      (authentication "invalid, expired, or consumed enrollment token") refuses

enroll_device-once_example :
    enroll_device hash next_draw input
      (serve_all hash requests (after (enroll_device hash draw input) one_token))
    ≡ (
      err (authentication "invalid, expired, or consumed enrollment token"),
      serve_all hash requests (after (enroll_device hash draw input) one_token),
    )
enroll_device-once_example =
    enroll_device-once hash draw next_draw input input one_token credentials requests enrolls refl

enroll_device-authenticates_example :
    result
      (authenticate_device hash "d1" "device secret")
      (after (enroll_device hash draw input) one_token)
    ≡ ok (device_row hash draw input)
enroll_device-authenticates_example =
    enroll_device-authenticates hash draw input one_token credentials enrolls
