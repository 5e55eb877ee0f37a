-- ===== src/Store/Commands/Tests.antt =====
-- The command queue's theorems at concrete queues: one device, with one command that waits.
use relaydot.Prelude.{
  ◌≡◌, refl, String, false, Option, none, some, List, [], ◌∷◌, ok, result, after, any, length, All,
  ◌≤◌, ◌=ˢ◌,
}
use relaydot.Json.{Json, null}
use relaydot.Store.Schema.{CommandRow, sync, pending, claimed, succeeded, Device, Db, Draw, empty}
use relaydot.Store.Commands.{
  Command, CommandInput, AckInput, command_clash, command_row, ack_succeeded, ack_failed,
  create_command, claim_commands, acknowledge_command,
}
use relaydot.Store.Commands.Claims.{IsHandedOut, claim_commands-IsHandedOut}
use relaydot.Store.Commands.Delivery.{
  Call, create, acknowledges as acknowledging, run, claim_commands-once,
}
use relaydot.Store.Commands.Retries.{acknowledge_command-again, create_command-again}

abbrev stringify : Json → String
stringify value = "null"

abbrev parse : String → Option Json
parse text = some null

abbrev device : Device
device = record {
  id = "d1";
  name = "laptop";
  platform = "linux";
  agent_version = "1";
  public_key = none;
  token_hash = "h";
  enrolled_at = 1;
  last_seen_at = 1;
  revoked_at = none;
}

abbrev draw : Draw
draw = record { now = 5; id = "c1"; token = "t"; audit_id = "a1"; audit_now = 5 }

abbrev later_draw : Draw
later_draw = record { now = 9; id = "c2"; token = "u"; audit_id = "a2"; audit_now = 9 }

abbrev input : CommandInput
input = record { device_id = "d1"; type = sync; payload = null; idempotency_key = "k" }

abbrev row : CommandRow
row = record {
  id = "c1";
  device_id = "d1";
  type = sync;
  payload_json = "null";
  idempotency_key = "k";
  status = pending;
  created_at = 5;
  claimed_at = none;
  acked_at = none;
  result_json = none;
  error = none;
}

abbrev no_commands : Db
no_commands = record empty { devices = device ∷ [] }

abbrev one_command : Db
one_command = record no_commands { commands = row ∷ [] }

abbrev waiting : Command
waiting = record {
  id = "c1";
  device_id = "d1";
  type = sync;
  payload = null;
  idempotency_key = "k";
  status = pending;
  created_at = 5;
  claimed_at = none;
  acked_at = none;
  result = none;
  error = none;
}

abbrev handed_out : Command
handed_out = record waiting { status = claimed; claimed_at = some 7 }

abbrev done : Command
done = record waiting { status = succeeded; acked_at = some 5 }

abbrev success : AckInput
success = record {
  device_id = "d1";
  command_id = "c1";
  status = ack_succeeded;
  result = none;
  error = none;
}

abbrev failure_report : AckInput
failure_report = record success { status = ack_failed }

claims : result (claim_commands stringify parse 7 "d1" 10) one_command ≡ ok (handed_out ∷ [])
unfolding claim_commands
claims = refl

creates : result (create_command stringify parse draw input) no_commands ≡ ok waiting
unfolding create_command command_row
creates = refl

acknowledges : result (acknowledge_command stringify parse draw success) one_command ≡ ok done
unfolding acknowledge_command
acknowledges = refl

abbrev next_input : CommandInput
next_input = record input { idempotency_key = "k2" }

-- The device acknowledges, and an operator asks for the next synchronisation.
abbrev next_calls : List Call
next_calls = acknowledging draw success ∷ create later_draw next_input ∷ []

abbrev next_command : Command
next_command = record waiting {
  id = "c2";
  idempotency_key = "k2";
  status = claimed;
  created_at = 9;
  claimed_at = some 11;
}

claims_next :
    result (claim_commands stringify parse 11 "d1" 10) (
      run stringify parse next_calls (after (claim_commands stringify parse 7 "d1" 10) one_command))
    ≡ ok (next_command ∷ [])
unfolding claim_commands run command_clash command_row
claims_next = refl

claim_commands-once_example : any (λ c. c.id =ˢ "c1") (next_command ∷ []) ≡ false
claim_commands-once_example =
    claim_commands-once stringify parse 7 11 "d1" "d1" 10 10 "c1" one_command (handed_out ∷ [])
      (next_command ∷ []) next_calls claims refl claims_next

claim_commands-IsHandedOut_example :
    All (IsHandedOut "d1" 7) (handed_out ∷ []) × (length (handed_out ∷ []) ≤ 10)
claim_commands-IsHandedOut_example =
    claim_commands-IsHandedOut stringify parse 7 "d1" 10 one_command (handed_out ∷ []) claims

acknowledge_command-again_example :
    acknowledge_command stringify parse later_draw failure_report
      (after (acknowledge_command stringify parse draw success) one_command)
    ≡ (ok done, after (acknowledge_command stringify parse draw success) one_command)
acknowledge_command-again_example =
    acknowledge_command-again stringify parse draw later_draw success failure_report one_command
      done (refl, tt) acknowledges refl refl

create_command-again_example :
    create_command stringify parse later_draw input
      (after (create_command stringify parse draw input) no_commands)
    ≡ (ok waiting, after (create_command stringify parse draw input) no_commands)
create_command-again_example =
    create_command-again stringify parse draw later_draw input input no_commands waiting creates
      refl refl
