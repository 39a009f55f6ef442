-- ===== src/Tests/Devices.antt =====
-- The manual commands on sample data.
use pages_to_rgb.Prelude.{String, ◌≡◌, ◌≤◌, refl, Bool, true, false, ap, none, some, [], ◌∷◌, count}
use pages_to_rgb.Common.Value.{Value, end}
use pages_to_rgb.Common.Exec.{Result, ok}
use pages_to_rgb.Rgb.Commands.Status.{next_status, is_active, allowed_before, status_of_event}
use pages_to_rgb.Rgb.Commands.Lookup.{
  locks, overdue, expire_overdue, find_device, get_command, check_device, check_command,
  write_command,
}
use pages_to_rgb.Rgb.Commands.Create.{create_manual_command}
use pages_to_rgb.Rgb.Commands.Events.{
  EventRequest, record_event, record_found, check_key, check_status, apply_event, stamp,
}
use pages_to_rgb.Rgb.Commands.Service.{one_test_per_device, committed, none_yet, then, create}
use pages_to_rgb.Rgb.Commands.Idempotency.{event_repeated}
use pages_to_rgb.Db.{Db, Command, CommandStatus, CommandEventName, CommandKind}
use pages_to_rgb.Tests.Data.{uuid_text, empty_db, white, test_request}

abbrev value_text : Value → String
value_text v = ""

abbrev after_create : Db
after_create =
    committed empty_db (create_manual_command uuid_text "esp" test_request "admin" 1 0 0 0 empty_db)

one_test_per_device_example : count (locks 2) after_create.commands ≤ 1
one_test_per_device_example =
    one_test_per_device uuid_text value_text {db = empty_db} {db' = after_create} refl
      (then none_yet (create "esp" test_request "admin" 1 0 0 0 refl)) 2

abbrev command : Command
command = record {
  command_id = 1;
  device_id = 2;
  session_id = none;
  kind = CommandKind.test;
  rgb = white;
  brightness_percent = 12;
  on_ms = 500;
  off_ms = 500;
  repeat_count = 2;
  status = CommandStatus.queued;
  queued_at = 0;
  forwarded_at = none;
  received_at = none;
  applied_at = none;
  off_at = none;
  expired_at = none;
  failed_at = none;
  cancelled_at = none;
  attempt_count = 0;
  failure_reason = none;
  expires_at = 32000000;
  created_by = some "admin";
}

abbrev db_of : Command → Db
db_of c = record empty_db { commands = c ∷ [] }

abbrev forwarded : EventRequest
forwarded = record {
  event = CommandEventName.forwarded;
  idempotency_key = "k1";
  payload = end;
  effective = end;
  firmware_version = none;
  device_timestamp = none;
}

abbrev forwarded_command : Command
forwarded_command = record command {
  status = CommandStatus.forwarded;
  forwarded_at = some 5;
  attempt_count = 1;
}

event_accepted :
    (record_event uuid_text value_text "esp" 1 forwarded 5 5 (db_of command)).0
    ≡ ok (forwarded_command, false)
unfolding record_event record_found check_key check_status apply_event stamp next_status
    allowed_before status_of_event find_device get_command check_command check_device expire_overdue
    overdue is_active write_command
event_accepted = refl

event_repeated_example :
    (record_event uuid_text value_text "esp" 1 forwarded 9 9
      (record_event uuid_text value_text "esp" 1 forwarded 5 5 (db_of command)).1).0
    ≡ ok (
      (event_repeated uuid_text value_text forwarded "esp" 1 5 5 9 9
          (db_of command)
          event_accepted).1,
      true,
    )
event_repeated_example =
    ap (λ (r : Result (Command × Bool) × Db). r.0)
      (event_repeated uuid_text value_text forwarded "esp" 1 5 5 9 9 (db_of command)
        event_accepted).2
