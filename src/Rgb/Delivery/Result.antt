-- ===== src/Rgb/Delivery/Result.antt =====
-- rgb/delivery.py: the delivery row of a session, which holds the result command that the firmware
-- polls for, and its cursor. `uuid_text` is `str` of a UUID, of the standard library.
use pages_to_rgb.Prelude.{
  ℕ, String, Bool, true, false, not, ◌&&◌, ◌||◌, Option, none, some, [], ◌∷◌, ◌++◌, find?, update,
  ◌==◌, ◌+◌, str_eq, if◌then◌else◌,
}
use pages_to_rgb.Common.Value.{Value, null, num, text, Fields, end, field}
use pages_to_rgb.Common.Exec.{Exec, ok, err, app_error}
use pages_to_rgb.Session.State.{SessionState, cancelled, ◌≈◌}
use pages_to_rgb.Rgb.Schemas.{
  RgbResultCommand, result_processing, rgb_sequence_ready, result_cancelled, command_name,
  same_command,
}
use pages_to_rgb.Rgb.Delivery.Binding.{SessionBinding}
use pages_to_rgb.Db.{Db, Delivery, AuditEvent, add_audit}

abbrev pub same_id : Option ℕ → Option ℕ → Bool
same_id none none = true
same_id (some a) (some b) = a == b
same_id _ _ = false

abbrev pub same_reason : Option String → Option String → Bool
same_reason none none = true
same_reason (some a) (some b) = str_eq a b
same_reason _ _ = false

abbrev pub of_session : ℕ → Delivery → Bool
of_session n d = d.session_id == n

-- Whether the visible part of a delivery differs from what is asked for.
unfoldable pub changed : Delivery → RgbResultCommand → Option ℕ → Option String → Bool
changed d command active reason =
    not (same_command d.command command)
    || not (same_id d.active_sequence_id active)
    || not (same_reason d.reason_code reason)

severity : RgbResultCommand → String
severity result_cancelled = "warning"
severity _ = "info"

optional_text : Option String → Value
optional_text none = null
optional_text (some s) = text s

optional_uuid : (ℕ → String) → Option ℕ → Value
optional_uuid uuid_text none = null
optional_uuid uuid_text (some n) = text (uuid_text n)

abbrev pub is_cancelled_status : Option SessionState → Bool
is_cancelled_status none = false
is_cancelled_status (some s) = s ≈ cancelled

-- `current.command` is `RGB_SEQUENCE_READY` or `RESULT_CANCELLED`.
abbrev pub is_settled : RgbResultCommand → Bool
is_settled rgb_sequence_ready = true
is_settled result_cancelled = true
is_settled _ = false

module _ (uuid_text : ℕ → String) where
  status_audit : SessionBinding → RgbResultCommand → Fields → AuditEvent
  unfolding severity
  status_audit binding command payload = record {
    session_id = some binding.session.id;
    event_type = "RGB_RESULT_STATUS_CHANGED";
    stage = "system";
    severity = severity command;
    reason_code = none;
    actor_type = "system";
    payload = payload;
  }

  visible_payload : RgbResultCommand → ℕ → Option ℕ → Option String → Fields
  unfolding optional_text optional_uuid
  visible_payload command cursor active reason = field "command" (text (command_name command)) (
      field "cursor" (num cursor) (
        field "active_sequence_id" (optional_uuid uuid_text active)
          (field "reason_code" (optional_text reason) end)))

  unfoldable pub create_delivery :
      SessionBinding → RgbResultCommand → Option ℕ → Option String → ℕ → Exec Db Delivery
  unfolding status_audit visible_payload
  create_delivery binding command active reason now db =
      let d : Delivery = record {
        session_id = binding.session.id;
        device_id = binding.device.id;
        gateway_id = binding.gateway.id;
        command = command;
        cursor = 1;
        active_sequence_id = active;
        reason_code = reason;
        updated_at = now;
      } in
      (
        ok d,
        add_audit (status_audit binding command (visible_payload command 1 active reason))
            (record db { deliveries = db.deliveries ++ d ∷ [] }),
      )

  unfoldable pub advance_delivery :
      SessionBinding → Delivery → RgbResultCommand → Option ℕ → Option String → ℕ → Exec Db Delivery
  unfolding status_audit visible_payload
  advance_delivery binding d command active reason now db =
      if not ((d.device_id == binding.device.id) && (d.gateway_id == binding.gateway.id))
      then (err (app_error "FORBIDDEN" 403), db)
      else if changed d command active reason
      then (let d' : Delivery = record d {
        command = command;
        active_sequence_id = active;
        reason_code = reason;
        cursor = d.cursor + 1;
        updated_at = now;
      } in
          (
            ok d',
            add_audit
                (status_audit binding command (
                  field "previous_command" (text (command_name d.command)) (
                    field "previous_cursor" (num d.cursor)
                      (visible_payload command d'.cursor active reason))))
                (record db {
                  deliveries = update (of_session d.session_id) (λ _. d') db.deliveries;
                }),
          ))
      else (ok d, db)

  unfoldable pub write_delivery :
      SessionBinding
      → Option Delivery
      → RgbResultCommand
      → Option ℕ
      → Option String
      → ℕ
      → Exec Db Delivery
  unfolding create_delivery advance_delivery
  write_delivery binding none command active reason now db =
      create_delivery binding command active reason now db
  write_delivery binding (some d) command active reason now db =
      advance_delivery binding d command active reason now db

  unfoldable pub get_or_create_delivery :
      SessionBinding → RgbResultCommand → Option ℕ → Option String → ℕ → Exec Db Delivery
  unfolding write_delivery
  get_or_create_delivery binding command active reason now db =
      write_delivery binding (find? (of_session binding.session.id) db.deliveries) command active
        reason now db

  unfoldable pub mark_current : SessionBinding → Option Delivery → ℕ → Exec Db Delivery
  unfolding get_or_create_delivery
  mark_current binding none now db =
      get_or_create_delivery binding result_processing none none now db
  mark_current binding (some d) now db =
      if is_settled d.command
      then (ok d, db)
      else get_or_create_delivery binding result_processing none none now db

  unfoldable pub mark_result_processing : SessionBinding → ℕ → Exec Db Delivery
  unfolding mark_current
  mark_result_processing binding now db =
      if is_cancelled_status binding.session.status
      then get_or_create_delivery binding result_cancelled none (some "CANCELLED") now db
      else mark_current binding (find? (of_session binding.session.id) db.deliveries) now db
