-- ===== src/Store/Sessions/Tests.antt =====
-- The session theorems at an empty database and at one with a session.
use relaydot.Prelude.{
  ◌≡◌, refl, String, none, [], ◌∷◌, arith, ok, err, authentication, result, after,
}
use relaydot.Store.Schema.{Db, Draw, empty}
use relaydot.Store.Enrollment.{IssuedToken}
use relaydot.Store.Sessions.{
  session_row, create_admin_session, authenticate_admin_session, revoke_admin_session,
}
use relaydot.Store.Sessions.Lifecycle.{
  create_admin_session-authenticates, revoke_admin_session-refuses,
}

abbrev hash : String → String
hash s = s

abbrev draw : Draw
draw = record { now = 5; id = "s1"; token = "cookie"; audit_id = "a1"; audit_now = 5 }

abbrev issued : IssuedToken
issued = record { id = "s1"; token = "cookie"; expires_at = 28805 }

abbrev one_session : Db
one_session = record empty {
  sessions =
      record {
        id = "s1";
        token_hash = "cookie";
        created_at = 1;
        expires_at = 100;
        last_seen_at = 1;
        revoked_at = none;
      }
      ∷ [];
}

creates : result (create_admin_session hash draw 28800 6) empty ≡ ok issued
unfolding create_admin_session
creates = refl

create_admin_session-authenticates_example :
    result
      (authenticate_admin_session hash 28804 "cookie")
      (after (create_admin_session hash draw 28800 6) empty)
    ≡ ok (record (session_row hash draw 28800) { last_seen_at = 28804 })
create_admin_session-authenticates_example =
    create_admin_session-authenticates hash draw 28800 6 28804 issued empty creates (omega arith)
      (omega arith)

revoke_admin_session-refuses_example :
    result
      (authenticate_admin_session hash 9 "cookie")
      (after (revoke_admin_session hash draw "cookie") one_session)
    ≡ err (authentication "invalid or expired session")
revoke_admin_session-refuses_example = revoke_admin_session-refuses hash draw "cookie" 9 one_session
