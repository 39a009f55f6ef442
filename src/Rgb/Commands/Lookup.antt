-- ===== src/Rgb/Commands/Lookup.antt =====
-- rgb/device_commands.py: finding a device and a command, and the expiry of overdue commands, which
-- every lookup does first. `uuid_text` is `str` of a UUID, of the standard library, and the readings
-- of the clock are arguments.
use pages_to_rgb.Prelude.{
  ℕ, String, Bool, ◌&&◌, Option, none, some, ◌++◌, map, find?, select, update, leb, ◌==◌, str_eq,
  if◌then◌else◌,
}
use pages_to_rgb.Common.Value.{text, end, field}
use pages_to_rgb.Common.Exec.{Exec, ok, err, app_error, ◌>>=◌}
use pages_to_rgb.Db.{Db, Device, CommandStatus, CommandEventName, Command, CommandEvent, AuditEvent}
use pages_to_rgb.Rgb.Commands.Status.{is_active, is_lock, effective_payload}

unfoldable pub check_device : Option Device → Exec Db Device
check_device none db = (err (app_error "DEVICE_UNKNOWN" 404), db)
check_device (some d) db =
    if d.enabled then (ok d, db) else (err (app_error "DEVICE_DISABLED" 403), db)

-- `_device`
unfoldable pub find_device : String → Exec Db Device
unfolding check_device
find_device device_code db =
    check_device (find? (λ (d : Device). str_eq d.device_code device_code) db.devices) db

-- The rows that `_expire_overdue` selects.
unfoldable pub overdue : ℕ → ℕ → Command → Bool
unfolding is_active
overdue now device_id c = (c.device_id == device_id) && is_active c.status && leb c.expires_at now

abbrev pub expire : ℕ → Command → Command
expire now c = record c {
  status = CommandStatus.expired;
  expired_at = some now;
  failure_reason = some "command_timeout";
}

-- `command.status in COMMAND_LOCK_STATUSES` of the device
abbrev pub locks : ℕ → Command → Bool
locks device_id c = (c.device_id == device_id) && is_lock c.status

abbrev pub has_command_id : ℕ → Command → Bool
has_command_id n c = c.command_id == n

abbrev pub of_device : ℕ → ℕ → Command → Bool
of_device device_id n c = (c.device_id == device_id) && (c.command_id == n)

unfoldable pub write_command : Command → Db → Db
write_command c db = record db {
  commands = update (has_command_id c.command_id) (λ _. c) db.commands;
}

unfoldable pub check_command : Option Command → Device → Exec Db (Command × Device)
check_command none device db = (err (app_error "NOT_FOUND" 404), db)
check_command (some c) device db = (ok (c, device), db)

module _ (uuid_text : ℕ → String) where
  abbrev timeout_event : Device → Command → CommandEvent
  timeout_event device c = record {
    command_id = c.command_id;
    device_id = device.id;
    event_type = CommandEventName.expired;
    requested_payload = effective_payload c;
    effective_payload = end;
    payload = field "reason" (text "command_timeout") end;
    firmware_version = device.firmware_version;
    device_timestamp = none;
    error = some "command_timeout";
    idempotency_key = Prim.Native.String.◌++◌ "timeout:" (uuid_text c.command_id);
  }

  abbrev expired_audit : Command → AuditEvent
  expired_audit c = record {
    session_id = none;
    event_type = "RGB_DEVICE_COMMAND_EXPIRED";
    stage = "DELIVER";
    severity = "WARNING";
    reason_code = some "RGB_COMMAND_TIMEOUT";
    actor_type = "system";
    payload = field "command_id" (text (uuid_text c.command_id)) end;
  }

  unfoldable pub expire_overdue : ℕ → Device → Db → Db
  unfolding overdue
  expire_overdue now device db =
      let rows = select (overdue now device.id) db.commands in
      record db {
        commands = update (overdue now device.id) (expire now) db.commands;
        command_events = db.command_events ++ map (timeout_event device) rows;
        audit = db.audit ++ map expired_audit rows;
      }

  unfoldable pub get_command : String → ℕ → ℕ → Exec Db (Command × Device)
  unfolding check_command
  get_command device_code command_id now = find_device device_code >>= λ device db.
      let db' = expire_overdue now device db in
      check_command (find? (of_device device.id command_id) db'.commands) device db'
