-- ===== src/Gateway/Captures.antt =====
-- apps/api/routers/gateway.py: the routes that open and complete a capture, and those that serve and
-- acknowledge commands.
pub mod Counts
use pages_to_rgb.Prelude.{
  ℕ, String, Bool, true, false, ◌&&◌, Option, none, some, [], ◌∷◌, ◌++◌, find?, count, update, ◌==◌,
  str_eq, if◌then◌else◌,
}
use pages_to_rgb.Common.Exec.{Exec, Result, ok, err, app_error, ◌>>=◌, unit_of_work}
use pages_to_rgb.Common.Value.{Value}
use pages_to_rgb.Session.State.{SessionState}
use pages_to_rgb.Capture.Commands.{next_persistent_command, ack_command}
use pages_to_rgb.Capture.Upload.Rows.{capture_key}
use pages_to_rgb.Capture.Upload.Keys.{of_capture}
use pages_to_rgb.Gateway.Binding.{get_session, bound_to}
use pages_to_rgb.Db.{Db, Session, Device, Capture, Frame, GatewayCommand}

pub record CaptureRequest : Type 0 where
  pub capture_id : String
  pub mode : String
  pub command_cursor : ℕ
  pub requested_frames : ℕ

-- A changed row is written back under its id.
abbrev pub write_capture : Capture → Db → Db
write_capture k db = record db {
  captures = update (λ (c : Capture). c.id == k.id) (λ _. k) db.captures;
}

or_exam : String → String
or_exam session_type = if str_eq session_type "" then "EXAM" else session_type

unfoldable pub opened_capture : ℕ → Session → CaptureRequest → Capture
unfolding or_exam
opened_capture id s body = record {
  id = id;
  session_id = s.id;
  capture_id = body.capture_id;
  mode = body.mode;
  command_cursor = body.command_cursor;
  requested_frames = body.requested_frames;
  received_frames = 0;
  status = "open";
  capture_source = s.capture_source;
  session_type = or_exam s.session_type;
  camera_profile_revision_id = none;
  camera_profile_snapshot_json = none;
  requested_camera_config_json = none;
  effective_camera_config_json = none;
  firmware_version = none;
  capabilities_version = none;
  page_number = none;
  requested_resolution = none;
  effective_resolution = none;
  requested_esp_jpeg_quality = none;
  effective_esp_jpeg_quality = none;
  configured_buffer_bytes = none;
  dma_enabled = none;
  expected_frames = none;
  completed_at = none;
}

unfoldable pub open_or_update : ℕ → CaptureRequest → Session → Option Capture → Exec Db Capture
open_or_update id body s (some k) db =
    let k' : Capture = record k {
      mode = body.mode;
      command_cursor = body.command_cursor;
      requested_frames = body.requested_frames;
    } in
    (ok k', write_capture k' db)
open_or_update id body s none db =
    let k = opened_capture id s body in (ok k, record db { captures = db.captures ++ k ∷ [] })

-- The answer is read off the capture.
unfoldable pub create_capture : ℕ → String → String → CaptureRequest → Exec Db Capture
unfolding open_or_update
create_capture id gateway_id session_id body = do
  (s, d) ← get_session gateway_id session_id
  λ db. open_or_update id body s (find? (capture_key s.id body.capture_id) db.captures) db

complete_row : ℕ → Option Capture → Exec Db Capture
complete_row now none db = (err (app_error "NOT_FOUND" 404), db)
complete_row now (some k) db =
    let k' : Capture = record k {
      received_frames = count (of_capture k.id) db.frames;
      status = "complete";
      completed_at = some now;
    } in
    (ok k', write_capture k' db)

-- The number that the client declares is only logged and sent back.
unfoldable pub capture_complete : ℕ → String → String → String → ℕ → Exec Db (Capture × ℕ)
unfolding complete_row
capture_complete now gateway_id session_id capture_id declared = do
  (s, d) ← get_session gateway_id session_id
  k ← λ db. complete_row now (find? (capture_key s.id capture_id) db.captures) db
  λ db. (ok (k, declared), db)

-- A ValueError of the service becomes the status 422.
as_422 : Result GatewayCommand × Db → Result GatewayCommand × Db
as_422 (ok row, db) = (ok row, db)
as_422 (err e, db) = (err (app_error "VALUE_ERROR" 422), db)

unfoldable pub get_command :
    (ℕ → String)
    → (String → String)
    → (Value → ℕ)
    → (Value → String)
    → String
    → String
    → ℕ
    → ℕ
    → String
    → (ℕ → Option SessionState)
    → Exec Db GatewayCommand
unfolding as_422
get_command padded normalize int_of str_of gateway_id session_id cursor wait_ms phase observed = do
  (s, d) ← get_session gateway_id session_id
  λ db.
      as_422
        (next_persistent_command padded normalize int_of str_of s cursor phase wait_ms observed db)

acked : Option GatewayCommand → Exec Db GatewayCommand
acked none db = (err (app_error "NOT_FOUND" 404), db)
acked (some row) db = (ok row, db)

find_session : Option Session → Exec Db Session
find_session none db = (err (app_error "NOT_FOUND" 404), db)
find_session (some s) db = (ok s, db)

-- The device is not looked at.
unfoldable pub ack_command_endpoint : String → String → ℕ → ℕ → Exec Db GatewayCommand
unfolding acked find_session
ack_command_endpoint gateway_id session_id cursor now = do
  s ← λ db. find_session (find? (bound_to gateway_id session_id db) db.sessions) db
  row ← ack_command s cursor now
  acked row
