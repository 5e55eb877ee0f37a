-- ===== src/Store/Commands.antt =====
-- apps/web/src/lib/store.ts: the durable command queue of the devices. `stringify` and `parse` are
-- `JSON.stringify` and `JSON.parse` of the runtime.
pub mod Claims
pub mod Delivery
pub mod Retries
mod Tests
use relaydot.Prelude.{
  ℕ, String, Bool, true, false, ◌&&◌, ◌||◌, Option, none, some, List, [], ◌∷◌, ◌++◌, map, ltb, ◌==◌,
  ◌=ˢ◌, if◌then◌else◌, first, select, update, take, order_by, Result, ok, err, not_found, failure,
  Exec, throw, lift, gets, modify, transaction, ◌>>=◌, ◌>>◌,
}
use relaydot.Json.{Json}
use relaydot.Store.Schema.{
  CommandType, sync, update_agent, reload_policy, collect_diagnostics, CommandStatus, pending,
  claimed, succeeded, failed, CommandRow, Device, Job, Db, Draw, insert_into, audit,
}
use relaydot.Store.Enrollment.{has_id}
use relaydot.Store.Order.{str_ltb}

pub record CommandInput : Type 0 where
  pub device_id : String
  pub type : CommandType
  pub payload : Json
  pub idempotency_key : String

-- A decoded row.
pub record Command : Type 0 where
  pub id : String
  pub device_id : String
  pub type : CommandType
  pub payload : Json
  pub idempotency_key : String
  pub status : CommandStatus
  pub created_at : ℕ
  pub claimed_at : Option ℕ
  pub acked_at : Option ℕ
  pub result : Option Json
  pub error : Option String

-- `status: "succeeded" | "failed"`.
pub data AckStatus : Type 0 where
  ack_succeeded ack_failed : AckStatus

pub record AckInput : Type 0 where
  pub device_id : String
  pub command_id : String
  pub status : AckStatus
  pub result : Option Json
  pub error : Option String

abbrev pub to_status : AckStatus → CommandStatus
to_status ack_succeeded = succeeded
to_status ack_failed = failed

abbrev ack_action : AckStatus → String
ack_action ack_succeeded = "command.succeeded"
ack_action ack_failed = "command.failed"

abbrev pub type_name : CommandType → String
type_name sync = "sync"
type_name update_agent = "update_agent"
type_name reload_policy = "reload_policy"
type_name collect_diagnostics = "collect_diagnostics"

abbrev pub is_pending : CommandStatus → Bool
is_pending pending = true
is_pending _ = false

abbrev pub is_final : CommandStatus → Bool
is_final succeeded = true
is_final failed = true
is_final _ = false

abbrev pub is_command : String → CommandRow → Bool
is_command id r = r.id =ˢ id

abbrev pub keyed : String → String → CommandRow → Bool
keyed device_id key r = r.device_id =ˢ device_id && r.idempotency_key =ˢ key

abbrev pub owned : String → String → CommandRow → Bool
owned id device_id r = r.id =ˢ id && r.device_id =ˢ device_id

abbrev pub waits_for : String → CommandRow → Bool
waits_for device_id r = r.device_id =ˢ device_id && is_pending r.status

-- `ORDER BY created_at, id`
abbrev pub created_before : CommandRow → CommandRow → Bool
created_before a b =
    ltb a.created_at b.created_at || (a.created_at == b.created_at && str_ltb a.id b.id)

abbrev pub claim : ℕ → CommandRow → CommandRow
claim now r = record r { status = claimed; claimed_at = some now }

-- The rows that `claimCommands` selects, and its loop of updates.
pub claimable : String → ℕ → List CommandRow → List CommandRow
claimable device_id limit rows =
    take limit (order_by created_before (select (waits_for device_id) rows))

pub claim_each : ℕ → List CommandRow → List CommandRow → List CommandRow
claim_each now [] rows = rows
claim_each now (r ∷ rs) rows = claim_each now rs (update (is_command r.id) (claim now) rows)

pub command_clash : CommandRow → CommandRow → Bool
command_clash row r = r.id =ˢ row.id || keyed row.device_id row.idempotency_key r

abbrev pub created_job : String → Job
created_job id = record {
  kind = "command_created";
  fields = ("command_id", id) ∷ [];
  max_attempts = 5;
}

module _ (stringify : Json → String) (parse : String → Option Json) where
  abbrev parse_text : String → Result Json
  parse_text text = elim (parse text) [
    | none ↦ err (failure "invalid JSON")
    | some value ↦ ok value
  ]

  abbrev decode_as : CommandRow → Result Json → Option (Result Json) → Result Command
  decode_as r (err e) result = err e
  decode_as r (ok p) (some (err e)) = err e
  decode_as r (ok p) (some (ok v)) = ok (record {
    id = r.id;
    device_id = r.device_id;
    type = r.type;
    payload = p;
    idempotency_key = r.idempotency_key;
    status = r.status;
    created_at = r.created_at;
    claimed_at = r.claimed_at;
    acked_at = r.acked_at;
    result = some v;
    error = r.error;
  })
  decode_as r (ok p) none = ok (record {
    id = r.id;
    device_id = r.device_id;
    type = r.type;
    payload = p;
    idempotency_key = r.idempotency_key;
    status = r.status;
    created_at = r.created_at;
    claimed_at = r.claimed_at;
    acked_at = r.acked_at;
    result = none;
    error = r.error;
  })

  pub decode_command : CommandRow → Result Command
  decode_command r =
      decode_as r (parse_text r.payload_json)
        (elim r.result_json [ none ↦ none | some text ↦ some (parse_text text) ])

  pub decode_all : List CommandRow → Result (List Command)
  decode_all [] = ok []
  decode_all (r ∷ rs) = elim (decode_command r) [
    | err e ↦ err e
    | ok c ↦ elim (decode_all rs) [ err e ↦ err e | ok cs ↦ ok (c ∷ cs) ]
  ]

  decode_found : Option CommandRow → Result Command
  unfolding decode_command
  decode_found none = err (not_found "command not found")
  decode_found (some r) = decode_command r

  pub get_command : String → Exec Db Command
  unfolding decode_found
  get_command id db = (decode_found (first (is_command id) db.commands), db)

  pub command_row : Draw → CommandInput → CommandRow
  command_row d i = record {
    id = d.id;
    device_id = i.device_id;
    type = i.type;
    payload_json = stringify i.payload;
    idempotency_key = i.idempotency_key;
    status = pending;
    created_at = d.now;
    claimed_at = none;
    acked_at = none;
    result_json = none;
    error = none;
  }

  -- The writes that follow the insert of a command: the job that announces it, and the audit.
  abbrev pub announce : Draw → CommandInput → Db → Db
  announce d i db =
      audit d "command.created" "command" d.id (("type", type_name i.type) ∷ [])
        (record db { jobs = db.jobs ++ created_job d.id ∷ [] })

  pub create_new : Draw → CommandInput → Exec Db Command
  unfolding get_command audit
  create_new d i = do
    transaction (do
      insert_into (λ db. db.commands) (λ db rows. record db { commands = rows })
          (command_clash (command_row d i)) (command_row d i)
      modify (announce d i))
    get_command d.id

  create_once : Draw → CommandInput → Option CommandRow → Exec Db Command
  unfolding create_new
  create_once d i (some existing) = lift (decode_command existing)
  create_once d i none = create_new d i

  create_for : Draw → CommandInput → Option Device → Exec Db Command
  unfolding create_once
  create_for d i none = throw (not_found "device not found")
  create_for d i (some _) = do
    existing ← gets (λ db. first (keyed i.device_id i.idempotency_key) db.commands)
    create_once d i existing

  pub create_command : Draw → CommandInput → Exec Db Command
  unfolding create_for
  create_command d i = do
    device ← gets (λ db. first (has_id i.device_id) db.devices)
    create_for d i device

  pub claim_commands : ℕ → String → ℕ → Exec Db (List Command)
  unfolding claimable claim_each decode_all decode_command
  claim_commands now device_id limit = transaction (do
    rows ← gets (λ db. claimable device_id limit db.commands)
    modify (λ db. record db { commands = claim_each now rows db.commands })
    lift (decode_all (map (claim now) rows)))

  abbrev pub acknowledge : ℕ → AckInput → CommandRow → CommandRow
  acknowledge now i r = record r {
    status = to_status i.status;
    acked_at = some now;
    result_json = elim i.result [ none ↦ none | some v ↦ some (stringify v) ];
    error = i.error;
  }

  ack_row : Draw → AckInput → Exec Db Command
  unfolding get_command audit
  ack_row d i = do
    transaction (do
      modify (λ db. record db {
        commands = update (owned i.command_id i.device_id) (acknowledge d.now i) db.commands;
      })
      modify (audit d (ack_action i.status) "command" i.command_id []))
    get_command i.command_id

  ack_found : Draw → AckInput → Option CommandRow → Exec Db Command
  unfolding ack_row
  ack_found d i none = throw (not_found "command not found")
  ack_found d i (some existing) =
      if is_final existing.status then lift (decode_command existing) else ack_row d i

  pub acknowledge_command : Draw → AckInput → Exec Db Command
  unfolding ack_found
  acknowledge_command d i = do
    existing ← gets (λ db. first (owned i.command_id i.device_id) db.commands)
    ack_found d i existing
