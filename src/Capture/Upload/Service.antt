-- ===== src/Capture/Upload/Service.antt =====
-- capture/frame_upload.py: `upload_frame`, and the request around it, whose unit of work is rolled
-- back where an exception leaves it (`get_uow` of the API).
pub mod Cases
pub mod Retry
pub mod Closed
pub mod Tables
pub mod Invariants
use pages_to_rgb.Prelude.{
  Bool, true, ◌&&◌, Option, none, some, [], ◌∷◌, ◌++◌, find?, ◌==◌, str_eq, if◌then◌else◌,
}
use pages_to_rgb.Common.Exec.{Result, ok, err, app_error, value_error, raised, Exec}
use pages_to_rgb.Session.State.{SessionState}
use pages_to_rgb.Capture.Upload.Request.{FrameUploadRequest, Checked, Library, validate}
use pages_to_rgb.Capture.Upload.Rows.{
  CameraSettings, camera_settings, capture_key, frame_slot, new_capture,
}
use pages_to_rgb.Capture.Upload.Flow.{
  World, FrameUploadResult, Surroundings, is_open, by_public_id, result_for, store_original,
}
use pages_to_rgb.Db.{Session, Capture, Frame}

abbrev pub add_capture : Capture → World → World
add_capture row w = record w { db = record w.db { captures = w.db.captures ++ row ∷ [] } }

module _ (lib : Library) (r : FrameUploadRequest) (around : Surroundings) where
  module _ (c : Checked) (s : Session) (camera : CameraSettings) where
    known_frame : Frame → Exec World FrameUploadResult
    known_frame f w =
        if str_eq (lib.lower f.sha256) (lib.lower c.sha256)
        then (ok (result_for lib r c f true), w)
        else (err (app_error "FRAME_DUPLICATE_CONFLICT" 409), w)

    -- The second query for a duplicate, by the session and the digest as well.
    unfoldable pub second_check : Capture → Option Frame → Exec World FrameUploadResult
    second_check row (some f) w = (ok (result_for lib r c f true), w)
    second_check row none w = store_original lib r c around s row camera w

    abbrev same_frame : Capture → Frame → Bool
    same_frame row f =
        f.session_id == s.id && str_eq f.sha256 c.sha256 && frame_slot row.id c.frame_index f

    unfoldable pub open_frame : Option SessionState → Capture → Exec World FrameUploadResult
    unfolding second_check
    open_frame none row w = (err value_error, w)
    open_frame (some state) row w =
        if is_open state
        then second_check row (find? (same_frame row) w.db.frames) w
        else (err (app_error "SESSION_LOCKED" 409), w)

    unfoldable pub for_frame : Capture → Option Frame → Exec World FrameUploadResult
    unfolding known_frame open_frame
    for_frame row (some f) w = known_frame f w
    for_frame row none w = open_frame s.status row w

    abbrev in_capture : Capture → Exec World FrameUploadResult
    in_capture row w = for_frame row (find? (frame_slot row.id c.frame_index) w.db.frames) w

    unfoldable pub open_capture : Option SessionState → Exec World FrameUploadResult
    unfolding for_frame
    open_capture none w = (err value_error, w)
    open_capture (some state) w =
        if is_open state
        then (let row = new_capture around.capture_id s r c camera in
            in_capture row (add_capture row w))
        else (err (app_error "SESSION_LOCKED" 409), w)

    unfoldable pub for_capture : Option Capture → Exec World FrameUploadResult
    unfolding open_capture for_frame
    for_capture (some row) w = in_capture row w
    for_capture none w = open_capture s.status w

  unfoldable pub for_camera :
      Checked → Session → Option CameraSettings → Exec World FrameUploadResult
  unfolding for_capture
  for_camera c s none w = (err raised, w)
  for_camera c s (some camera) w =
      for_capture c s camera (find? (capture_key s.id r.capture_id) w.db.captures) w

  unfoldable pub for_session : Checked → Option Session → Exec World FrameUploadResult
  unfolding for_camera
  for_session c none w = (err (app_error "SESSION_NOT_FOUND" 404), w)
  for_session c (some s) w = for_camera c s (camera_settings s r.source_resolution) w

  unfoldable pub for_checked : Result Checked → Exec World FrameUploadResult
  unfolding for_session
  for_checked (err e) w = (err e, w)
  for_checked (ok c) w = for_session c (find? (by_public_id r.session_id) w.db.sessions) w

  unfoldable pub upload_frame : Exec World FrameUploadResult
  unfolding for_checked
  upload_frame w = for_checked (validate lib r) w

-- The rows of a request that raised are gone, except the orphans.
unfoldable pub commit_or_roll_back :
    World → Result FrameUploadResult × World → Result FrameUploadResult × World
commit_or_roll_back old (ok a, w) = (ok a, w)
commit_or_roll_back old (err e, w) =
    (err e, record w { db = record old.db { orphans = w.db.orphans } })
