-- ===== src/Rgb/Commands/Events.antt =====
-- rgb/device_commands.py: `record_event`. `value_text` is `str` of a JSON value
-- that is no text, of the standard library.
use pages_to_rgb.Prelude.{
  ℕ, String, Bool, true, false, ◌&&◌, Option, none, some, [], ◌∷◌, ◌++◌, find?, leb, ◌==◌, str_eq,
  if◌then◌else◌, ◌+◌,
}
use pages_to_rgb.Common.Value.{truthy, Value, text, obj, Fields, end, field, get, same_fields}
use pages_to_rgb.Common.Exec.{Exec, Result, ok, err, app_error, ◌>>=◌}
use pages_to_rgb.Db.{
  Db, Device, CommandStatus, CommandEventName, Command, CommandEvent, AuditEvent, add_audit,
}
use pages_to_rgb.Rgb.Commands.Status.{next_status, effective_payload}
use pages_to_rgb.Rgb.Commands.Lookup.{get_command, write_command}

-- `v if isinstance(v, str) else None`
text_only : Option Value → Option String
text_only (some (text s)) = some s
text_only _ = none

module _ (value_text : Value → String) where
  as_text : Value → String
  as_text (text s) = s
  as_text v = value_text v

  -- `str(payload.get("reason") or "device_failed")`
  failure_text : Option Value → String
  unfolding truthy as_text
  failure_text none = "device_failed"
  failure_text (some v) = if truthy v then as_text v else "device_failed"

  or_now : Option ℕ → ℕ → Option ℕ
  or_now none now = some now
  or_now (some t) now = some t

  -- The fields that an event writes, beside the status.
  unfoldable pub stamp : CommandEventName → Fields → ℕ → Command → Command
  unfolding failure_text or_now
  stamp CommandEventName.forwarded payload now c = record c {
    forwarded_at = or_now c.forwarded_at now;
    attempt_count = c.attempt_count + 1;
  }
  stamp CommandEventName.received payload now c = record c { received_at = some now }
  stamp CommandEventName.applied payload now c = record c { applied_at = some now }
  stamp CommandEventName.off payload now c = record c { off_at = some now }
  stamp CommandEventName.failed payload now c = record c {
    failed_at = some now;
    failure_reason = some (failure_text (get "reason" payload));
  }
  stamp CommandEventName.expired payload now c = record c { expired_at = some now }
  stamp CommandEventName.cancelled payload now c = record c { cancelled_at = some now }

is_applied : CommandEventName → Bool
is_applied CommandEventName.applied = true
is_applied _ = false

severity : CommandEventName → String
severity CommandEventName.failed = "ERROR"
severity CommandEventName.expired = "ERROR"
severity _ = "INFO"

event_text : CommandEventName → String
event_text CommandEventName.forwarded = "FORWARDED"
event_text CommandEventName.received = "RECEIVED"
event_text CommandEventName.applied = "APPLIED"
event_text CommandEventName.off = "OFF"
event_text CommandEventName.failed = "FAILED"
event_text CommandEventName.expired = "EXPIRED"
event_text CommandEventName.cancelled = "CANCELLED"

-- `firmware_version or device.firmware_version`
or_version : Option String → Option String → Option String
or_version none d = d
or_version (some s) d = if str_eq s "" then d else some s

abbrev pub has_key : ℕ → String → CommandEvent → Bool
has_key command_id key e = (e.command_id == command_id) && str_eq e.idempotency_key key

-- What a request of a gateway brings.
pub record EventRequest : Type 0 where
  pub event : CommandEventName
  pub idempotency_key : String
  pub payload : Fields
  pub effective : Fields
  pub firmware_version : Option String
  pub device_timestamp : Option ℕ

unfoldable pub event_row : EventRequest → Command → Device → CommandEvent
unfolding text_only or_version
event_row q c device = record {
  command_id = c.command_id;
  device_id = device.id;
  event_type = q.event;
  requested_payload = effective_payload c;
  effective_payload = q.effective;
  payload = q.payload;
  firmware_version = or_version q.firmware_version device.firmware_version;
  device_timestamp = q.device_timestamp;
  error = text_only (get "error" q.payload);
  idempotency_key = q.idempotency_key;
}

module _ (uuid_text : ℕ → String) (value_text : Value → String) where
  event_audit : EventRequest → Command → AuditEvent
  unfolding severity event_text text_only
  event_audit q c = record {
    session_id = c.session_id;
    event_type = "RGB_DEVICE_COMMAND_EVENT";
    stage = "DELIVER";
    severity = severity q.event;
    reason_code = text_only (get "reason" q.payload);
    actor_type = "gateway";
    payload = field "command_id" (text (uuid_text c.command_id)) (
        field "event" (text (event_text q.event))
          (field "payload" (obj q.payload) (field "effective" (obj q.effective) end)));
  }

  -- The writes of an accepted event.
  unfoldable pub apply_event :
      EventRequest → CommandStatus → ℕ → Command × Device → Exec Db (Command × Bool)
  unfolding stamp write_command event_row event_audit
  apply_event q status now (c, device) db =
      let c' = stamp value_text q.event q.payload now (record c { status = status }) in
      (
        ok (c', false),
        add_audit (event_audit q c') (record (write_command c' db) {
          command_events = db.command_events ++ event_row q c' device ∷ [];
        }),
      )

  unfoldable pub check_status :
      EventRequest → Result CommandStatus → ℕ → Command × Device → Exec Db (Command × Bool)
  unfolding apply_event is_applied
  check_status q (err e) now (c, device) db = (err e, db)
  check_status q (ok status) now (c, device) db =
      if is_applied q.event && leb c.expires_at now
      then (err (app_error "RGB_COMMAND_TIMEOUT" 409), db)
      else apply_event q status now (c, device) db

  unfoldable pub check_key :
      EventRequest → Option CommandEvent → ℕ → Command × Device → Exec Db (Command × Bool)
  unfolding check_status next_status
  check_key q (some e) now (c, device) db =
      if same_fields e.payload q.payload
      then (ok (c, true), db)
      else (err (app_error "IDEMPOTENCY_KEY_REUSED_WITH_DIFFERENT_PAYLOAD" 409), db)
  check_key q none now (c, device) db =
      check_status q (next_status c.status q.event) now (c, device) db

  unfoldable pub record_found : EventRequest → ℕ → Command × Device → Exec Db (Command × Bool)
  unfolding check_key
  record_found q now (c, device) db =
      check_key q (find? (has_key c.command_id q.idempotency_key) db.command_events) now (c, device)
        db

  unfoldable pub record_event : String → ℕ → EventRequest → ℕ → ℕ → Exec Db (Command × Bool)
  unfolding record_found
  record_event device_code command_id q expiry_now now db =
      if str_eq q.idempotency_key ""
      then (err (app_error "INVALID_REQUEST" 422), db)
      else (get_command uuid_text device_code command_id expiry_now >>= record_found q now) db
