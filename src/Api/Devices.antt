-- ===== src/Api/Devices.antt =====
-- apps/web/src/lib/api.ts: enrollment, devices and their commands. `to_number` is `Number(text)`,
-- `none` for what is no nonnegative integer; `utf16_length` is `length` of a text.
use relaydot.Prelude.{
  ℕ, String, ◌||◌, Option, none, some, ltb, ◌=ˢ◌, if◌then◌else◌, Result, ok, err, validation, Exec,
  pure, lift, gets, ◌>>=◌,
}
use relaydot.Json.{
  Json, num, obj, Row, end, get, as_object, as_string, as_text, as_nonnegative, is_nullish,
}
use relaydot.Store.Schema.{
  CommandType, sync, update_agent, reload_policy, collect_diagnostics, Db, Draw,
}
use relaydot.Store.Enrollment.{create_enrollment_token, enroll_device, heartbeat, list_devices}
use relaydot.Store.Commands.{
  AckStatus, ack_succeeded, ack_failed, create_command, claim_commands, acknowledge_command,
}
use relaydot.Access.{Runtime, Config, Request}
use relaydot.Api.{
  error, issued, credentials, devices, last_seen, command, commands, Response, json, handle,
  body_object, require_string, as_admin, as_device,
}

abbrev lifetime_error : Result ℕ
lifetime_error = err (validation "expires_in must be an integer from 60 to 86400")

abbrev in_lifetime : Option ℕ → Result ℕ
in_lifetime none = lifetime_error
in_lifetime (some n) = if ltb n 60 || ltb 86400 n then lifetime_error else ok n

-- `body.expires_in ?? 600`, checked.
abbrev pub expires_in : Option Json → Result ℕ
expires_in (some (num n)) = in_lifetime (as_nonnegative n)
expires_in value = if is_nullish value then ok 600 else lifetime_error

abbrev pub command_type : Option String → Result CommandType
command_type none = err (validation "unsupported command type")
command_type (some t) =
    if t =ˢ "sync"
    then ok sync
    else if t =ˢ "update_agent"
    then ok update_agent
    else if t =ˢ "reload_policy"
    then ok reload_policy
    else if t =ˢ "collect_diagnostics"
    then ok collect_diagnostics
    else err (validation "unsupported command type")

abbrev key_error : Result String
key_error = err (validation "idempotency_key must contain 1 to 200 characters")

abbrev pub idempotency_key : (String → ℕ) → Option String → Result String
idempotency_key utf16_length none = key_error
idempotency_key utf16_length (some key) = if ltb 200 (utf16_length key) then key_error else ok key

abbrev ack_status : Option String → Result AckStatus
ack_status none = err (validation "status must be succeeded or failed")
ack_status (some s) =
    if s =ˢ "succeeded"
    then ok ack_succeeded
    else if s =ˢ "failed"
    then ok ack_failed
    else err (validation "status must be succeeded or failed")

-- The payload: an object, or an empty one.
abbrev payload_of : Option Row → Json
payload_of none = obj end
payload_of (some fields) = obj fields

abbrev result_of : Option Row → Option Json
result_of none = none
result_of (some fields) = some (obj fields)

module _ (rt : Runtime) where
  unfoldable pub create_enrollment_token_handler : Config → ℕ → Draw → Request → Exec Db Response
  create_enrollment_token_handler cfg now d r = as_admin rt cfg now r (
      handle (do
        body ← body_object r
        lifetime ← lift (expires_in (get "expires_in" body))
        token ← create_enrollment_token rt.hash d lifetime
        pure (json (issued token) 200)))

  unfoldable pub enroll_handler : Draw → Request → Exec Db Response
  enroll_handler d r = handle (do
    body ← body_object r
    token ← require_string body "token"
    name ← require_string body "name"
    platform ← require_string body "platform"
    agent_version ← require_string body "agent_version"
    enrolled ← enroll_device rt.hash d (record {
      token = token;
      name = name;
      platform = platform;
      agent_version = agent_version;
      public_key = as_string (get "public_key" body);
    })
    pure (json (credentials enrolled) 201))

  unfoldable pub list_devices_handler : Config → ℕ → Request → Exec Db Response
  list_devices_handler cfg now r =
      as_admin rt cfg now r (gets (λ db. json (devices (list_devices db)) 200))

  unfoldable pub heartbeat_handler : ℕ → Request → String → Exec Db Response
  heartbeat_handler now r device_id = as_device rt r device_id (
      handle (do
        body ← body_object r
        agent_version ← require_string body "agent_version"
        seen ← heartbeat now device_id agent_version
        pure (json (last_seen seen) 200)))

  module _ (stringify : Json → String) (parse : String → Option Json) where
    unfoldable pub create_command_handler :
        (String → ℕ) → Config → ℕ → Draw → Request → String → Exec Db Response
    create_command_handler utf16_length cfg now d r device_id = as_admin rt cfg now r (
        handle (do
          body ← body_object r
          type ← lift (command_type (as_string (get "type" body)))
          key ← lift (idempotency_key utf16_length (as_text (get "idempotency_key" body)))
          created ← create_command stringify parse d (record {
            device_id = device_id;
            type = type;
            payload = payload_of (as_object (get "payload" body));
            idempotency_key = key;
          })
          pure (json (command created) 200)))

    abbrev claim_up_to : ℕ → String → Option ℕ → Exec Db Response
    claim_up_to now device_id none =
        pure (json (error "limit must be an integer from 1 to 100") 422)
    claim_up_to now device_id (some limit) =
        if ltb limit 1 || ltb 100 limit
        then pure (json (error "limit must be an integer from 1 to 100") 422)
        else (claim_commands stringify parse now device_id limit >>= λ claimed.
            pure (json (commands claimed) 200))

    abbrev limit_text : Option String → String
    limit_text none = "10"
    limit_text (some text) = text

    unfoldable pub claim_commands_handler :
        (String → Option ℕ) → ℕ → Request → String → Exec Db Response
    claim_commands_handler to_number now r device_id =
        as_device rt r device_id (claim_up_to now device_id (to_number (limit_text r.limit)))

    unfoldable pub acknowledge_command_handler : Draw → Request → String → String → Exec Db Response
    acknowledge_command_handler d r device_id command_id = as_device rt r device_id (
        handle (do
          body ← body_object r
          status ← lift (ack_status (as_string (get "status" body)))
          settled ← acknowledge_command stringify parse d (record {
            device_id = device_id;
            command_id = command_id;
            status = status;
            result = result_of (as_object (get "result" body));
            error = as_string (get "error" body);
          })
          pure (json (command settled) 200)))
