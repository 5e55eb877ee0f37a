-- ===== src/Store/Enrollment.antt =====
-- apps/web/src/lib/store.ts: enrollment tokens, devices and their credentials.
-- `hash` is `hashToken`, SHA-256 of the runtime.
pub mod OneTime
mod Tests
use relaydot.Prelude.{
  ℕ, ◌+◌, String, Bool, true, false, ◌&&◌, ◌||◌, not, Option, none, some, List, [], ◌∷◌, map, ltb,
  leb, ◌==◌, ◌=ˢ◌, if◌then◌else◌, is_some, first, update, changes, order_by, Result, ok, err,
  authentication, not_found, Exec, pure, throw, lift, gets, modify, transaction, ◌>>=◌, ◌>>◌,
}
use relaydot.Store.Schema.{EnrollmentToken, Device, Db, Draw, insert_into, audit}
use relaydot.Store.Order.{str_ltb}

pub record EnrollInput : Type 0 where
  pub token : String
  pub name : String
  pub platform : String
  pub agent_version : String
  pub public_key : Option String

pub record IssuedToken : Type 0 where
  pub id : String
  pub token : String
  pub expires_at : ℕ

pub record Credentials : Type 0 where
  pub device_id : String
  pub device_token : String

-- `consumed_at IS NULL AND id = ?`
abbrev pub is_open : String → EnrollmentToken → Bool
is_open id t = t.id =ˢ id && not (is_some t.consumed_at)

abbrev pub consume : ℕ → String → EnrollmentToken → EnrollmentToken
consume now device_id t = record t { consumed_at = some now; consumed_by = some device_id }

-- The test of `enrollDevice` on the row that it finds.
abbrev pub usable : ℕ → Option EnrollmentToken → Result EnrollmentToken
usable now none = err (authentication "invalid, expired, or consumed enrollment token")
usable now (some t) =
    if is_some t.consumed_at || ltb t.expires_at now
    then err (authentication "invalid, expired, or consumed enrollment token")
    else ok t

abbrev pub has_id : String → Device → Bool
has_id id d = d.id =ˢ id

abbrev pub is_live : String → Device → Bool
is_live id d = d.id =ˢ id && not (is_some d.revoked_at)

module _ (hash : String → String) where
  abbrev pub has_token : String → EnrollmentToken → Bool
  has_token token t = t.token_hash =ˢ hash token

  pub token_row : Draw → ℕ → EnrollmentToken
  token_row d expires_in = record {
    id = d.id;
    token_hash = hash d.token;
    created_at = d.now;
    expires_at = d.now + expires_in;
    consumed_at = none;
    consumed_by = none;
  }

  pub token_clash : EnrollmentToken → EnrollmentToken → Bool
  token_clash row t = t.id =ˢ row.id || t.token_hash =ˢ row.token_hash

  pub create_enrollment_token : Draw → ℕ → Exec Db IssuedToken
  create_enrollment_token d expires_in = do
    transaction (do
      insert_into (λ db. db.tokens) (λ db rows. record db { tokens = rows })
          (token_clash (token_row d expires_in)) (token_row d expires_in)
      modify (audit d "enrollment_token.created" "enrollment_token" d.id []))
    pure (record { id = d.id; token = d.token; expires_at = d.now + expires_in })

  pub device_row : Draw → EnrollInput → Device
  device_row d i = record {
    id = d.id;
    name = i.name;
    platform = i.platform;
    agent_version = i.agent_version;
    public_key = i.public_key;
    token_hash = hash d.token;
    enrolled_at = d.now;
    last_seen_at = d.now;
    revoked_at = none;
  }

  pub device_clash : Device → Device → Bool
  device_clash row d = d.id =ˢ row.id || d.token_hash =ˢ row.token_hash

  pub consume_token : Draw → String → Exec Db ℕ
  consume_token d id db = (
    ok (changes (is_open id) db.tokens),
    record db { tokens = update (is_open id) (consume d.now d.id) db.tokens },
  )

  -- `d.id` is the new device's id and `d.token` its token.
  pub enroll_device : Draw → EnrollInput → Exec Db Credentials
  unfolding consume_token audit
  enroll_device d i = do
    found ← gets (λ db. first (has_token i.token) db.tokens)
    enrollment ← lift (usable d.now found)
    transaction (do
      consumed ← consume_token d enrollment.id
      if consumed == 1
          then pure tt
          else throw (authentication "enrollment token was already consumed")
      insert_into (λ db. db.devices) (λ db rows. record db { devices = rows })
          (device_clash (device_row d i)) (device_row d i)
      modify (audit d "device.enrolled" "device" d.id (("name", i.name) ∷ [])))
    pure (record { device_id = d.id; device_token = d.token })

  abbrev accept : String → Option Device → Result Device
  accept token none = err (authentication "invalid device credentials")
  accept token (some d) =
      if hash token =ˢ d.token_hash then ok d else err (authentication "invalid device credentials")

  unfoldable pub authenticate_device : String → String → Exec Db Device
  authenticate_device device_id token db = (accept token (first (is_live device_id) db.devices), db)

-- `UPDATE devices …`, and `NotFoundError` unless one row changed.
pub heartbeat : ℕ → String → String → Exec Db ℕ
heartbeat now device_id version db =
    if changes (has_id device_id) db.devices == 1
    then (ok now, seen)
    else (err (not_found "device not found"), seen)
  where
    seen : Db
    seen = record db {
      devices =
          update (has_id device_id) (λ d. record d { last_seen_at = now; agent_version = version })
            db.devices;
    }

abbrev enrolled_before : Device → Device → Bool
enrolled_before a b =
    ltb a.enrolled_at b.enrolled_at || (a.enrolled_at == b.enrolled_at && str_ltb a.id b.id)

-- The columns that `listDevices` selects: no credential and no key.
pub record ListedDevice : Type 0 where
  pub id : String
  pub name : String
  pub platform : String
  pub agent_version : String
  pub enrolled_at : ℕ
  pub last_seen_at : ℕ
  pub revoked_at : Option ℕ

abbrev listed : Device → ListedDevice
listed d = record {
  id = d.id;
  name = d.name;
  platform = d.platform;
  agent_version = d.agent_version;
  enrolled_at = d.enrolled_at;
  last_seen_at = d.last_seen_at;
  revoked_at = d.revoked_at;
}

pub list_devices : Db → List ListedDevice
list_devices db = map listed (order_by enrolled_before db.devices)

unfoldable pub device_exists : String → Db → Bool
device_exists device_id db = is_some (first (has_id device_id) db.devices)
