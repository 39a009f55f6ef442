-- ===== src/Rgb/Commands/Status.antt =====
-- rgb/device_commands.py: the statuses of a manual command, the table of `_next_status`, and the
-- payloads that describe a command.
use pages_to_rgb.Prelude.{ℕ, String, Bool, true, false, Option, none, some, if◌then◌else◌}
use pages_to_rgb.Common.Value.{Value, null, num, text, arr, obj, nil, cons, Fields, end, field}
use pages_to_rgb.Common.Exec.{Result, ok, err, app_error}
use pages_to_rgb.Rgb.Schemas.{Rgb}
use pages_to_rgb.Db.{CommandStatus, CommandEventName, CommandKind, Command}

-- `ACTIVE_COMMAND_STATUSES`
unfoldable pub is_active : CommandStatus → Bool
is_active CommandStatus.queued = true
is_active CommandStatus.forwarded = true
is_active CommandStatus.received = true
is_active CommandStatus.applied = true
is_active _ = false

-- `COMMAND_LOCK_STATUSES`
unfoldable pub is_lock : CommandStatus → Bool
unfolding is_active
is_lock CommandStatus.cancelled = true
is_lock s = is_active s

-- The status that has the text of an event.
unfoldable pub status_of_event : CommandEventName → CommandStatus
status_of_event CommandEventName.forwarded = CommandStatus.forwarded
status_of_event CommandEventName.received = CommandStatus.received
status_of_event CommandEventName.applied = CommandStatus.applied
status_of_event CommandEventName.off = CommandStatus.off
status_of_event CommandEventName.failed = CommandStatus.failed
status_of_event CommandEventName.expired = CommandStatus.expired
status_of_event CommandEventName.cancelled = CommandStatus.cancelled

-- The table `allowed` of `_next_status`: `current in allowed[event]`.
unfoldable pub allowed_before : CommandEventName → CommandStatus → Bool
unfolding is_active
allowed_before CommandEventName.forwarded CommandStatus.queued = true
allowed_before CommandEventName.forwarded CommandStatus.forwarded = true
allowed_before CommandEventName.forwarded _ = false
allowed_before CommandEventName.received CommandStatus.forwarded = true
allowed_before CommandEventName.received CommandStatus.received = true
allowed_before CommandEventName.received _ = false
allowed_before CommandEventName.applied CommandStatus.received = true
allowed_before CommandEventName.applied CommandStatus.applied = true
allowed_before CommandEventName.applied _ = false
allowed_before CommandEventName.off CommandStatus.applied = true
allowed_before CommandEventName.off CommandStatus.cancelled = true
allowed_before CommandEventName.off CommandStatus.off = true
allowed_before CommandEventName.off _ = false
allowed_before CommandEventName.failed s = is_active s
allowed_before CommandEventName.expired s = is_active s
allowed_before CommandEventName.cancelled CommandStatus.cancelled = true
allowed_before CommandEventName.cancelled s = is_active s

unfoldable pub next_status : CommandStatus → CommandEventName → Result CommandStatus
unfolding allowed_before status_of_event
next_status current event =
    if allowed_before event current
    then ok (status_of_event event)
    else err (app_error "RGB_COMMAND_INVALID_TRANSITION" 409)

rgb_list : Rgb → Value
rgb_list c = arr (cons (num c.r) (cons (num c.g) (cons (num c.b) nil)))

pub record TestRequest : Type 0 where
  pub session_id : Option String
  -- Given, since `normalize_color` of the request's schema refuses a body with no color.
  pub rgb : Rgb
  pub brightness_percent : ℕ
  pub on_ms : ℕ
  pub off_ms : ℕ
  pub repeat_count : ℕ

pub requested_payload : TestRequest → Fields
unfolding rgb_list
requested_payload body = field "rgb" (rgb_list body.rgb) (
    field "brightness_percent" (num body.brightness_percent) (
      field "on_ms" (num body.on_ms)
        (field "off_ms" (num body.off_ms) (field "repeat_count" (num body.repeat_count) end))))

pub effective_payload : Command → Fields
unfolding rgb_list
effective_payload c = field "rgb" (rgb_list c.rgb) (
    field "brightness_percent" (num c.brightness_percent) (
      field "on_ms" (num c.on_ms)
        (field "off_ms" (num c.off_ms) (field "repeat_count" (num c.repeat_count) end))))

abbrev pub kind_name : CommandKind → String
kind_name CommandKind.test = "TEST"
kind_name CommandKind.stop = "STOP"

abbrev pub status_name : CommandStatus → String
status_name CommandStatus.queued = "QUEUED"
status_name CommandStatus.forwarded = "FORWARDED"
status_name CommandStatus.received = "RECEIVED"
status_name CommandStatus.applied = "APPLIED"
status_name CommandStatus.off = "OFF"
status_name CommandStatus.expired = "EXPIRED"
status_name CommandStatus.failed = "FAILED"
status_name CommandStatus.cancelled = "CANCELLED"

-- `effective_override or requested`: an empty object counts as none.
choose_effective : Option Fields → Fields → Fields
choose_effective none requested = requested
choose_effective (some end) requested = requested
choose_effective (some fs) requested = fs

optional_text : Option String → Value
optional_text none = null
optional_text (some s) = text s

flag_of : Bool → Value
flag_of b = Value.flag b

-- `expires_at` is written as its number of microseconds.
pub command_read_payload :
    (ℕ → String) → Command → String → Option String → Option Fields → Bool → Fields
unfolding choose_effective optional_text flag_of
command_read_payload uuid_text c device_code session_public_id override idempotent =
    let requested = effective_payload c in
    field "command_id" (text (uuid_text c.command_id)) (
      field "device_code" (text device_code) (
        field "session_id" (optional_text session_public_id) (
          field "kind" (text (kind_name c.kind)) (
            field "status" (text (status_name c.status)) (
              field "requested" (obj requested) (
                field "effective" (obj (choose_effective override requested)) (
                  field "expires_at" (num c.expires_at) (
                    field "failure_reason" (optional_text c.failure_reason)
                      (field "idempotent" (flag_of idempotent) end)))))))))
