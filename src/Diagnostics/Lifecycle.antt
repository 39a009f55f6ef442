-- ===== src/Diagnostics/Lifecycle.antt =====
-- camera_diagnostics/service.py: the life of a diagnostic. `is_valid_esp_id` is a regular expression of
-- the source and a parameter here, and so is `upper`, Python's `str.upper`.
use pages_to_rgb.Prelude.{
  ℕ, String, Bool, true, false, not, ◌&&◌, ◌||◌, Option, none, some, [], ◌∷◌, ◌++◌, find?, any,
  count, update, leb, ltb, ◌==◌, ◌+◌, ◌*◌, str_eq, if◌then◌else◌,
}
use pages_to_rgb.Common.Value.{Fields, end}
use pages_to_rgb.Common.Exec.{Exec, Result, ok, err, app_error, Done, done}
use pages_to_rgb.Session.State.{SessionState, completed, failed_recoverable, cancelled, locked, ◌≈◌}
use pages_to_rgb.Diagnostics.Limits.{limits_for_mode, mode_of, validate_profile, is_terminal_status}
use pages_to_rgb.Db.{
  Db, Session, Device, Gateway, CameraDiagnostic, DiagnosticMode, DiagnosticStatus, clip, preview,
  photo, requested, active, stopping, failed, expired,
}

-- `status.in_(["REQUESTED", "ACTIVE", "STOPPING"])`
abbrev pub is_live : DiagnosticStatus → Bool
is_live requested = true
is_live active = true
is_live stopping = true
is_live _ = false

abbrev pub live_on : ℕ → CameraDiagnostic → Bool
live_on device_id row = row.device_id == device_id && is_live row.status

-- The texts of `notin_` that are states; `FAILED` is none.
unfoldable pub leaves_camera : Option SessionState → Bool
leaves_camera none = false
leaves_camera (some s) = s ≈ completed || s ≈ failed_recoverable || s ≈ cancelled || s ≈ locked

abbrev pub occupies : ℕ → Session → Bool
occupies device_id s = s.device_id == device_id && not (leaves_camera s.status)

unfoldable pub assert_exclusive : ℕ → Exec Db Done
assert_exclusive device_id db =
    if any (live_on device_id) db.diagnostics
    then (err (app_error "INVALID_REQUEST" 409), db)
    else if any (occupies device_id) db.sessions
    then (err (app_error "SESSION_LOCKED" 409), db)
    else (ok done, db)

pub record DiagnosticRequest : Type 0 where
  pub device_code : String
  pub mode : String
  pub resolution : Option String
  pub jpeg_quality : Option ℕ
  pub duration_s : Option ℕ
  pub created_by : Option String

-- `int(duration_s) if duration_s else limit`
unfoldable pub duration_of : Option ℕ → ℕ → ℕ
duration_of none limit = limit
duration_of (some n) limit = if n == 0 then limit else n

unfoldable pub duration_ok : DiagnosticMode → ℕ → Bool
duration_ok photo dur = true
duration_ok clip dur = leb 1 dur && leb dur 30
duration_ok preview dur = leb 1 dur && leb dur 60

unfoldable pub new_row :
    ℕ → String → ℕ → Device → DiagnosticMode → Fields → ℕ → Option String → CameraDiagnostic
new_row id diagnostic_id now device mode profile dur created_by = record {
  id = id;
  diagnostic_id = diagnostic_id;
  device_id = device.id;
  gateway_id = none;
  mode = mode;
  status = requested;
  requested_profile = some profile;
  effective_profile = none;
  origin = "ESP32_CAMERA";
  duration_limit_s = dur;
  bytes_limit = (limits_for_mode mode).bytes_limit;
  max_frames = (limits_for_mode mode).max_frames;
  received_frames = 0;
  received_bytes = 0;
  last_frame_index = none;
  last_frame_sha256 = none;
  last_frame_key = none;
  last_frame_at = none;
  last_sequence = 0;
  reason = none;
  expires_at = now + (dur + 30) * 1000000;
  completed_at = none;
  created_by = created_by;
}

module _ (upper : String → String) (is_valid_esp_id : String → Bool) (id : ℕ)
    (diagnostic_id : String) (now : ℕ) (r : DiagnosticRequest) where
  unfoldable pub insert_diagnostic :
      Device → DiagnosticMode → Fields → ℕ → Result Done × Db → Result CameraDiagnostic × Db
  unfolding new_row
  insert_diagnostic device mode profile dur (err e, db) = (err e, db)
  insert_diagnostic device mode profile dur (ok _, db) =
      let row = new_row id diagnostic_id now device mode profile dur r.created_by in
      (ok row, record db { diagnostics = db.diagnostics ++ row ∷ [] })

  unfoldable pub for_device : DiagnosticMode → Fields → ℕ → Option Device → Exec Db CameraDiagnostic
  for_device mode profile dur none db = (err (app_error "NOT_FOUND" 404), db)
  for_device mode profile dur (some d) db =
      if not d.enabled
      then (err (app_error "DEVICE_DISABLED" 403), db)
      else insert_diagnostic d mode profile dur (assert_exclusive d.id db)

  unfoldable pub for_profile : DiagnosticMode → Result Fields → Exec Db CameraDiagnostic
  unfolding duration_of
  for_profile mode (err e) db = (err e, db)
  for_profile mode (ok profile) db =
      let dur = duration_of r.duration_s (limits_for_mode mode).duration_limit_s in
      if duration_ok mode dur
      then for_device mode profile dur
          (find? (λ (d : Device). str_eq d.device_code r.device_code) db.devices) db
      else (err (app_error "INVALID_REQUEST" 400), db)

  unfoldable pub for_mode : Option DiagnosticMode → Exec Db CameraDiagnostic
  for_mode none db = (err (app_error "INVALID_REQUEST" 400), db)
  for_mode (some mode) db =
      if not (is_valid_esp_id r.device_code)
      then (err (app_error "INVALID_REQUEST" 400), db)
      else for_profile mode (validate_profile upper r.resolution r.jpeg_quality) db

  unfoldable pub create_diagnostic : Bool → Exec Db CameraDiagnostic
  create_diagnostic enabled db =
      if not enabled then (err (app_error "FORBIDDEN" 403), db) else for_mode (mode_of r.mode) db

abbrev pub with_id : ℕ → CameraDiagnostic → Bool
with_id id row = row.id == id

unfoldable pub write_diagnostic : ℕ → (CameraDiagnostic → CameraDiagnostic) → Db → Db
write_diagnostic id f db = record db { diagnostics = update (with_id id) f db.diagnostics }

gateway_or : Option Gateway → Option ℕ → Option ℕ
gateway_or none old = old
gateway_or (some g) old = some g.id

-- `dict(effective)` if there is one that is not empty, else what is there, else what was requested.
effective_or : Option Fields → Option Fields → Option Fields → Option Fields
effective_or none none none = some end
effective_or none none (some r) = some r
effective_or none (some e) r = some e
effective_or (some end) none none = some end
effective_or (some end) none (some r) = some r
effective_or (some end) (some e) r = some e
effective_or (some fs) e r = some fs

unfoldable pub activated : Option Gateway → Option Fields → CameraDiagnostic → CameraDiagnostic
unfolding gateway_or effective_or
activated gateway effective row = record row {
  gateway_id = gateway_or gateway row.gateway_id;
  status = active;
  effective_profile = effective_or effective row.effective_profile row.requested_profile;
}

-- `row.status not in ("REQUESTED", "ACTIVE")`
abbrev pub accepts_frames : DiagnosticStatus → Bool
accepts_frames requested = true
accepts_frames active = true
accepts_frames _ = false

unfoldable pub activate_row :
    String → Option Fields → Option CameraDiagnostic → Exec Db CameraDiagnostic
activate_row gateway_code effective none db = (err (app_error "NOT_FOUND" 404), db)
activate_row gateway_code effective (some row) db =
    let gateway = find? (λ (g : Gateway). str_eq g.gateway_code gateway_code) db.gateways in
    if accepts_frames row.status
    then (
      ok (activated gateway effective row),
      write_diagnostic row.id (λ _. activated gateway effective row) db,
    )
    else (err (app_error "CAMERA_DIAG_NOT_ACTIVE" 409), db)

unfoldable pub mark_active : ℕ → String → Option Fields → Exec Db CameraDiagnostic
mark_active id gateway_code effective db =
    activate_row gateway_code effective (find? (with_id id) db.diagnostics) db

-- `row` is the row that the caller has read.
unfoldable pub stop_diagnostic : CameraDiagnostic → String → Exec Db CameraDiagnostic
stop_diagnostic row reason db =
    let row' : CameraDiagnostic = record row { status = stopping; reason = some reason } in
    if is_terminal_status row.status
    then (ok row, db)
    else (ok row', write_diagnostic row.id (λ _. row') db)

unfoldable pub fail_diagnostic : CameraDiagnostic → String → ℕ → Exec Db CameraDiagnostic
fail_diagnostic row reason now db =
    let row' : CameraDiagnostic = record row {
      status = failed;
      reason = some reason;
      completed_at = some now;
    } in
    if is_terminal_status row.status
    then (ok row, db)
    else (ok row', write_diagnostic row.id (λ _. row') db)

-- `r.reason or "expired"`
or_expired : Option String → Option String
or_expired none = some "expired"
or_expired (some s) = if str_eq s "" then some "expired" else some s

abbrev pub is_stale : ℕ → CameraDiagnostic → Bool
is_stale now row = is_live row.status && ltb row.expires_at now

unfoldable pub expire_row : ℕ → CameraDiagnostic → CameraDiagnostic
unfolding or_expired
expire_row now row = record row {
  status = expired;
  reason = or_expired row.reason;
  completed_at = some now;
}

-- The number of the rows that have expired.
unfoldable pub expire_stale : ℕ → Exec Db ℕ
expire_stale now db = (
  ok (count (is_stale now) db.diagnostics),
  record db { diagnostics = update (is_stale now) (expire_row now) db.diagnostics },
)
