-- ===== src/Capture/Commands.antt =====
-- capture/commands.py: the persistent commands of the gateway, in full. The cursor of a request is
-- at least 0. `observed k` is the status that the k-th slice of the long poll reads back, `none` if
-- its text is no state. A setting of the camera that is truthy is one that `int` converts: the server
-- makes the settings from a validated profile. Python's `strip().upper()`, `int`, `str` and
-- `{cursor:03d}` are parameters.
use pages_to_rgb.Prelude.{
  ℕ, String, Bool, true, false, not, ◌&&◌, ◌||◌, Option, none, some, List, [], ◌∷◌, ◌++◌, find?,
  update, leb, ltb, ◌==◌, ◌+◌, ◌*◌, min, max, zero, suc, str_eq, ◌<>◌, if◌then◌else◌,
}
use pages_to_rgb.Common.Value.{Value, num, text, Fields, end, field, get, put, truthy}
use pages_to_rgb.Common.Exec.{Exec, ok, err, value_error}
use pages_to_rgb.Session.State.{SessionState, locked, capture_locking, capturing, is_terminal, ◌≈◌}
use pages_to_rgb.Db.{Db, Session, GatewayCommand}

pub data Directive : Type 0 where
  stop : Directive
  ping : Directive
  pause : Directive
  resume : Directive
  capture_probe : Directive
  capture_full : Directive

unfoldable pub directive_name : Directive → String
directive_name stop = "STOP"
directive_name ping = "PING"
directive_name pause = "PAUSE"
directive_name resume = "RESUME"
directive_name capture_probe = "CAPTURE_PROBE"
directive_name capture_full = "CAPTURE_FULL"

-- `command in CONTROL_COMMANDS`
abbrev pub is_control : Directive → Bool
is_control stop = true
is_control pause = true
is_control resume = true
is_control _ = false

unfoldable pub max_exact_cursor : ℕ
max_exact_cursor = 9007199254740991

frame_settings : ℕ → ℕ → String → ℕ → Fields
frame_settings frames gap_ms frame_size jpeg_quality = field "frames" (num frames) (
    field "gap_ms" (num gap_ms)
      (field "frame_size" (text frame_size) (field "jpeg_quality" (num jpeg_quality) end)))

or_empty : Option Fields → Fields
or_empty none = end
or_empty (some fs) = fs

module _ (int_of : Value → ℕ) (str_of : Value → String) where
  int_or : Option Value → ℕ → ℕ
  int_or none d = d
  int_or (some v) d = if truthy v then int_of v else d

  str_or : Option Value → String → String
  str_or none d = d
  str_or (some v) d = if truthy v then str_of v else d

  -- The settings of a full capture by the ESP32.
  esp32_settings : Fields → Fields
  unfolding int_or str_or frame_settings
  esp32_settings config =
      frame_settings (int_or (get "frame_count" config) 2)
        (int_or (get "intra_frame_gap_ms" config) 220) (str_or (get "frame_size" config) "UXGA")
        (int_or (get "esp_jpeg_quality" config) 10)

  -- The command for a session that is capturing, by the normalized phase.
  capture_command : String → String → Option Fields → Directive × Option Fields
  unfolding esp32_settings frame_settings or_empty
  capture_command norm capture_source camera_config =
      if str_eq norm "PAUSE"
      then (pause, none)
      else if str_eq norm "RESUME"
      then (resume, none)
      else if str_eq norm "STOP"
      then (stop, none)
      else if str_eq capture_source "ESP32_CAMERA"
      then (if str_eq norm "PROBE"
          then (capture_probe, some (frame_settings 1 0 "UXGA" 10))
          else (capture_full, some (esp32_settings (or_empty camera_config))))
      else if str_eq norm "PROBE"
      then (capture_probe, some (frame_settings 1 180 "1280x720" 75))
      else (capture_full, some (frame_settings 3 180 "UXGA" 92))

  unfoldable pub desired_command :
      SessionState → String → String → Option Fields → Directive × Option Fields
  unfolding capture_command
  desired_command state norm capture_source camera_config =
      if (state ≈ locked) || (state ≈ capture_locking) || is_terminal state
      then (stop, none)
      else if not (state ≈ capturing)
      then (ping, none)
      else capture_command norm capture_source camera_config

-- The loop of the long poll after `k` slices of 250 ms, of which it has at most `fuel` left to
-- do; `wanted k` is the directive for the status that slice reads.
unfoldable pub poll :
    (ℕ → Option Directive) → ℕ → ℕ → ℕ → Directive × Option Fields → Directive × Option Fields
poll wanted wait_ms zero k command = command
poll wanted wait_ms (suc fuel) k command =
    let rest = poll wanted wait_ms fuel (k + 1) command in
    if ltb (k * 250) (min wait_ms 25000)
    then elim (wanted k) [
      | none ↦ command
      | some new ↦ if is_control new then (new, none) else rest
    ]
    else command

-- Slices of 250 ms up to 25 s.
unfoldable pub poll_fuel : ℕ
poll_fuel = 100

-- The command after the wait, if there is one.
unfoldable pub waited :
    (ℕ → Option Directive) → ℕ → Directive × Option Fields → Directive × Option Fields
unfolding poll_fuel
waited wanted wait_ms command =
    let polled = poll wanted wait_ms poll_fuel 0 command in
    if not (leb wait_ms 0) && not (is_control command.0) then polled else command

abbrev pub has_cursor : ℕ → ℕ → GatewayCommand → Bool
has_cursor session_id cursor row = (row.session_id == session_id) && (row.cursor == cursor)

-- `max(cursor)` over a session's rows, `none` where it has none.
unfoldable pub max_cursor : ℕ → List GatewayCommand → Option ℕ
max_cursor session_id [] = none
max_cursor session_id (row ∷ rows) =
    let rest = max_cursor session_id rows in
    if row.session_id == session_id
    then elim rest [ none ↦ some row.cursor | some c ↦ some (max row.cursor c) ]
    else rest

unfoldable pub next_cursor : Option ℕ → ℕ → ℕ
next_cursor none target = target
next_cursor (some c) target = if leb target c then c + 1 else target

module _ (padded : ℕ → String) where
  with_capture_id : Option Fields → ℕ → String → Option Fields
  unfolding or_empty
  with_capture_id payload cursor suffix =
      some (put "capture_id" (text ("cap-" <> padded cursor <> suffix)) (or_empty payload))

  -- `_payload_for`
  unfoldable pub payload_for : Directive → Option Fields → ℕ → Option Fields
  unfolding with_capture_id
  payload_for capture_full payload cursor = with_capture_id payload cursor "-full"
  payload_for capture_probe payload cursor = with_capture_id payload cursor "-probe"
  payload_for _ payload cursor = none

  abbrev pub command_row : ℕ → ℕ → Directive × Option Fields → GatewayCommand
  command_row session_id cursor (directive, payload) = record {
    session_id = session_id;
    cursor = cursor;
    command = directive_name directive;
    payload = payload_for directive payload cursor;
    acked = false;
    ack_at = none;
    attempts = 0;
  }

  unfoldable pub insert_command : ℕ → ℕ → Directive × Option Fields → Exec Db GatewayCommand
  insert_command session_id cursor command db =
      let row = command_row session_id cursor command in
      (ok row, record db { gateway_commands = db.gateway_commands ++ row ∷ [] })

  -- The row for a target cursor: the one that is there, or a new one past all the others.
  unfoldable pub persist :
      ℕ → ℕ → Directive × Option Fields → Option GatewayCommand → Exec Db GatewayCommand
  persist session_id target command (some row) db = (ok row, db)
  persist session_id target command none db =
      insert_command session_id (next_cursor (max_cursor session_id db.gateway_commands) target)
        command db

  unfoldable pub serve : ℕ → ℕ → Directive × Option Fields → Exec Db GatewayCommand
  unfolding max_exact_cursor
  serve session_id target command db =
      if ltb max_exact_cursor target
      then (err value_error, db)
      else persist session_id target command
          (find? (has_cursor session_id target) db.gateway_commands) db

  module _ (normalize : String → String) (int_of : Value → ℕ) (str_of : Value → String) where
    -- The directive for a status that is read back.
    unfoldable pub directive_for : Session → String → Option SessionState → Option Directive
    directive_for session phase none = none
    directive_for session phase (some state) =
        some
          (desired_command int_of str_of state (normalize phase) session.capture_source
            session.effective_camera_config_json).0

    unfoldable pub for_state :
        Session
        → Option SessionState
        → ℕ
        → String
        → ℕ
        → (ℕ → Option SessionState)
        → Exec Db GatewayCommand
    for_state session none client_cursor phase wait_ms observed db = (err value_error, db)
    for_state session (some state) client_cursor phase wait_ms observed db =
        serve session.id (client_cursor + 1)
          (waited (λ k. directive_for session phase (observed k)) wait_ms
            (desired_command int_of str_of state (normalize phase) session.capture_source
              session.effective_camera_config_json))
          db

    -- A phase that is not given is the empty one.
    unfoldable pub next_persistent_command :
        Session → ℕ → String → ℕ → (ℕ → Option SessionState) → Exec Db GatewayCommand
    unfolding max_exact_cursor
    next_persistent_command session client_cursor phase wait_ms observed db =
        if ltb max_exact_cursor client_cursor
        then (err value_error, db)
        else for_state session session.status client_cursor phase wait_ms observed db

acked_row : ℕ → GatewayCommand → GatewayCommand
acked_row now row = record row { acked = true; ack_at = some now; attempts = row.attempts + 1 }

unfoldable pub ack_row : ℕ → Option GatewayCommand → Exec Db (Option GatewayCommand)
unfolding acked_row
ack_row now none db = (ok none, db)
ack_row now (some row) db =
    let row' = acked_row now row in
    if row.acked then (ok (some row), db) else (
      ok (some row'),
      record db {
        gateway_commands =
            update (has_cursor row.session_id row.cursor) (λ _. row') db.gateway_commands;
      },
    )

unfoldable pub ack_command : Session → ℕ → ℕ → Exec Db (Option GatewayCommand)
unfolding ack_row
ack_command session cursor now db =
    ack_row now (find? (has_cursor session.id cursor) db.gateway_commands) db
