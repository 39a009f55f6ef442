-- ===== src/Rgb/Commands/Stop.antt =====
-- rgb/device_commands.py: `stop_command`.
use pages_to_rgb.Prelude.{ℕ, String, Bool, true, false, none, some, [], ◌∷◌, ◌++◌, if◌then◌else◌}
use pages_to_rgb.Common.Value.{text, end, field}
use pages_to_rgb.Common.Exec.{Exec, ok, ◌>>=◌}
use pages_to_rgb.Db.{
  Db, Device, CommandStatus, CommandEventName, Command, CommandEvent, AuditEvent, add_audit,
}
use pages_to_rgb.Rgb.Commands.Status.{effective_payload}
use pages_to_rgb.Rgb.Commands.Lookup.{get_command, write_command}

-- `command.status in {"OFF", "CANCELLED", "EXPIRED", "FAILED"}`
unfoldable pub is_stopped : CommandStatus → Bool
is_stopped CommandStatus.off = true
is_stopped CommandStatus.cancelled = true
is_stopped CommandStatus.expired = true
is_stopped CommandStatus.failed = true
is_stopped _ = false

module _ (uuid_text : ℕ → String) where
  abbrev stop_event : Command → Device → String → CommandEvent
  stop_event c device actor = record {
    command_id = c.command_id;
    device_id = device.id;
    event_type = CommandEventName.cancelled;
    requested_payload = effective_payload c;
    effective_payload = end;
    payload = field "actor" (text actor) end;
    firmware_version = device.firmware_version;
    device_timestamp = none;
    error = none;
    idempotency_key = Prim.Native.String.◌++◌ "stop:" (uuid_text c.command_id);
  }

  abbrev stop_audit : Command → AuditEvent
  stop_audit c = record {
    session_id = c.session_id;
    event_type = "RGB_DEVICE_COMMAND_STOP_REQUESTED";
    stage = "DELIVER";
    severity = "INFO";
    reason_code = none;
    actor_type = "admin";
    payload = field "command_id" (text (uuid_text c.command_id)) end;
  }

  unfoldable pub stop_row : String → ℕ → Command × Device → Exec Db (Command × Bool)
  unfolding is_stopped write_command
  stop_row actor now (c, device) db =
      if is_stopped c.status
      then (ok (c, true), db)
      else (let c' : Command = record c {
        status = CommandStatus.cancelled;
        cancelled_at = some now;
      } in
          (
            ok (c', false),
            add_audit (stop_audit c') (record (write_command c' db) {
              command_events = db.command_events ++ stop_event c' device actor ∷ [];
            }),
          ))

  unfoldable pub stop_command : String → ℕ → String → ℕ → ℕ → Exec Db (Command × Bool)
  unfolding stop_row
  stop_command device_code command_id actor expiry_now now =
      get_command uuid_text device_code command_id expiry_now >>= stop_row actor now
