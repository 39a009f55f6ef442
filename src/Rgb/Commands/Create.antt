-- ===== src/Rgb/Commands/Create.antt =====
-- rgb/device_commands.py: `create_manual_command`. The readings of the clock, the new UUID and the
-- database's time of the insertion are arguments.
use pages_to_rgb.Prelude.{
  ℕ, String, Bool, true, false, ◌&&◌, Option, none, some, [], ◌∷◌, ◌++◌, find?, any, ◌==◌, str_eq,
  if◌then◌else◌, ◌+◌, ◌*◌, max,
}
use pages_to_rgb.Common.Value.{text, obj, end, field}
use pages_to_rgb.Common.Exec.{Exec, ok, err, app_error, ◌>>=◌}
use pages_to_rgb.Rgb.Schemas.{RgbSequenceStatus}
use pages_to_rgb.Db.{
  Db, Session, Device, Sequence, CommandStatus, CommandKind, Command, AuditEvent, add_audit,
}
use pages_to_rgb.Rgb.Commands.Status.{TestRequest, requested_payload}
use pages_to_rgb.Rgb.Commands.Lookup.{find_device, expire_overdue, locks}

-- `ACTIVE_SEQUENCE_STATUSES`
unfoldable pub is_active_sequence : RgbSequenceStatus → Bool
is_active_sequence RgbSequenceStatus.ready = true
is_active_sequence RgbSequenceStatus.received = true
is_active_sequence RgbSequenceStatus.playing = true
is_active_sequence _ = false

-- `_active_sequence(…) is not None`
unfoldable pub active_sequence : ℕ → Db → Bool
unfolding is_active_sequence
active_sequence device_id db =
    any
      (λ (q : Sequence).
        is_active_sequence q.status
        && any (λ (s : Session). (s.id == q.session_id) && (s.device_id == device_id)) db.sessions)
      db.sequences

-- What the body names: no session, a session that is not there, or the row.
unfoldable pub linked_row : Option String → Db → Option (Option Session)
linked_row none db = some none
linked_row (some public_id) db =
    if str_eq public_id ""
    then some none
    else keep (find? (λ (s : Session). str_eq s.public_id public_id) db.sessions)
  where
    keep : Option Session → Option (Option Session)
    keep none = none
    keep (some s) = some (some s)

linked_id : Option Session → Option ℕ
linked_id none = none
linked_id (some s) = some s.id

unfoldable pub check_linked : ℕ → Option (Option Session) → Exec Db (Option ℕ)
unfolding linked_id
check_linked device_id none db = (err (app_error "SESSION_NOT_FOUND" 404), db)
check_linked device_id (some none) db = (ok none, db)
check_linked device_id (some (some s)) db =
    if s.device_id == device_id
    then (ok (linked_id (some s)), db)
    else (err (app_error "RGB_SEQUENCE_CONFLICT" 409), db)

-- `now + timedelta(seconds=max(30, duration_s + 30))`, in microseconds.
unfoldable pub expiry : TestRequest → ℕ → ℕ
expiry body now =
    now + max 30000000 ((body.on_ms + body.off_ms) * body.repeat_count * 1000 + 30000000)

unfoldable pub new_command : TestRequest → String → ℕ → ℕ → ℕ → Option ℕ → ℕ → Command
unfolding expiry
new_command body actor command_id device_id now session_id queued_at = record {
  command_id = command_id;
  device_id = device_id;
  session_id = session_id;
  kind = CommandKind.test;
  rgb = body.rgb;
  brightness_percent = body.brightness_percent;
  on_ms = body.on_ms;
  off_ms = body.off_ms;
  repeat_count = body.repeat_count;
  status = CommandStatus.queued;
  queued_at = queued_at;
  forwarded_at = none;
  received_at = none;
  applied_at = none;
  off_at = none;
  expired_at = none;
  failed_at = none;
  cancelled_at = none;
  attempt_count = 0;
  failure_reason = none;
  expires_at = expiry body now;
  created_by = some actor;
}

module _ (uuid_text : ℕ → String) where
  abbrev created_audit : Command → String → TestRequest → AuditEvent
  created_audit c device_code body = record {
    session_id = c.session_id;
    event_type = "RGB_DEVICE_COMMAND_CREATED";
    stage = "DELIVER";
    severity = "INFO";
    reason_code = none;
    actor_type = "admin";
    payload = field "command_id" (text (uuid_text c.command_id)) (
        field "device_code" (text device_code) (
          field "requested" (obj (requested_payload body))
            (field "effective" (obj (requested_payload body)) end)));
  }

  unfoldable pub insert_command : Command → String → TestRequest → Exec Db Command
  insert_command c device_code body db = (
    ok c,
    add_audit (created_audit c device_code body) (record db { commands = db.commands ++ c ∷ [] }),
  )

  -- The part below `_expire_overdue`.
  unfoldable pub create_for : Device → String → TestRequest → String → ℕ → ℕ → ℕ → Exec Db Command
  unfolding linked_row check_linked insert_command active_sequence new_command
  create_for device device_code body actor command_id now queued_at db =
      if any (locks device.id) db.commands
      then (err (app_error "RGB_TEST_BUSY" 409), db)
      else if active_sequence device.id db
      then (err (app_error "RGB_SEQUENCE_CONFLICT" 409), db)
      else (check_linked device.id (linked_row body.session_id db) >>= λ session_id.
            insert_command (new_command body actor command_id device.id now session_id queued_at)
              device_code body)
          db

  -- `expiry_now` and `now` are the two readings of the clock, `queued_at` is the database's.
  unfoldable pub create_manual_command :
      String → TestRequest → String → ℕ → ℕ → ℕ → ℕ → Exec Db Command
  unfolding create_for
  create_manual_command device_code body actor command_id expiry_now now queued_at =
      find_device device_code >>= λ device db.
      create_for device device_code body actor command_id now queued_at
        (expire_overdue uuid_text expiry_now device db)
