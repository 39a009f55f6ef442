-- ===== src/Capture/Upload/Service/Closed.antt =====
-- capture/frame_upload.py: a session that is closed for uploads, and an object that is in the way.
use pages_to_rgb.Prelude.{◌≡◌, refl, true, false, Option, none, some, find?, if_rule, str_eq}
use pages_to_rgb.Common.Exec.{Result, ok, err, app_error}
use pages_to_rgb.Session.State.{SessionState}
use pages_to_rgb.Capture.Storage.{StoredObject, at_key}
use pages_to_rgb.Capture.Upload.Request.{FrameUploadRequest, Checked, Library, validate}
use pages_to_rgb.Capture.Upload.Rows.{CameraSettings, camera_settings, capture_key, frame_slot}
use pages_to_rgb.Capture.Upload.Flow.{
  World, FrameUploadResult, Surroundings, is_open, by_public_id, frame_key,
}
use pages_to_rgb.Capture.Upload.Flow.Original.{store_original-taken}
use pages_to_rgb.Capture.Upload.Service.{
  for_checked, for_session, for_camera, for_capture, open_capture, for_frame, known_frame,
  open_frame, second_check, same_frame, upload_frame,
}
use pages_to_rgb.Db.{Session, Capture, Frame, pages_originals}

module _ (lib : Library) (r : FrameUploadRequest) (around : Surroundings) where
  module _ (c : Checked) (s : Session) {state : SessionState} (status : s.status ≡ some state)
      (closed : is_open state ≡ false) (w : World) where
    for_frame-closed :
        (camera : CameraSettings) (row : Capture) (o : Option Frame)
        → (for_frame lib r around c s camera row o w).1 ≡ w
    unfolding for_frame known_frame open_frame
    for_frame-closed camera row (some f) =
        if_rule (λ (out : Result FrameUploadResult × World). out.1 ≡ w)
          (str_eq (lib.lower f.sha256) (lib.lower c.sha256)) _ _ (λ _. refl) (λ _. refl)
    for_frame-closed camera row none = rw status (rw closed refl)

    for_capture-closed :
        (camera : CameraSettings) (o : Option Capture)
        → (for_capture lib r around c s camera o w).1 ≡ w
    unfolding for_capture open_capture
    for_capture-closed camera (some row) =
        for_frame-closed camera row (find? (frame_slot row.id c.frame_index) w.db.frames)
    for_capture-closed camera none = rw status (rw closed refl)

    for_camera-closed : (o : Option CameraSettings) → (for_camera lib r around c s o w).1 ≡ w
    unfolding for_camera
    for_camera-closed none = refl
    for_camera-closed (some camera) =
        for_capture-closed camera (find? (capture_key s.id r.capture_id) w.db.captures)

  for_checked-closed :
      (o : Result Checked) (w : World) {s : Session} {state : SessionState}
      → find? (by_public_id r.session_id) w.db.sessions ≡ some s
      → s.status ≡ some state
      → is_open state ≡ false
      → (for_checked lib r around o w).1 ≡ w
  unfolding for_checked for_session
  for_checked-closed (err e) w found status closed = refl
  for_checked-closed (ok c) w {s} {state} found status closed =
      rw found (for_camera-closed c s status closed w (camera_settings s r.source_resolution))

-- Once a session is closed for uploads, no request writes anything: no capture, no frame, no object
-- and no orphan, whatever the request is and whatever happens around it.
pub closed_takes_nothing :
    (lib : Library) (r : FrameUploadRequest) (around : Surroundings) (w : World) {s : Session}
    {state : SessionState}
    → find? (by_public_id r.session_id) w.db.sessions ≡ some s
    → s.status ≡ some state
    → is_open state ≡ false
    → (upload_frame lib r around w).1 ≡ w
unfolding upload_frame
closed_takes_nothing lib r around w found status closed =
    for_checked-closed lib r around (validate lib r) w found status closed

open_frame-taken :
    (lib : Library) (r : FrameUploadRequest) (around : Surroundings) (w : World) (c : Checked)
    (s : Session) (status : Option SessionState) {state : SessionState} (camera : CameraSettings)
    (row : Capture) (o : StoredObject)
    → status ≡ some state
    → is_open state ≡ true
    → find? (same_frame lib r around c s camera row) w.db.frames ≡ none
    → around.put_outage ≡ none
    → find?
        (at_key pages_originals (frame_key lib r.session_id r.capture_id c.frame_index))
        w.objects
      ≡ some o
    → open_frame lib r around c s camera status row w
      ≡ (err (app_error "STORAGE_OVERWRITE_FORBIDDEN" 409), w)
unfolding open_frame second_check
open_frame-taken lib r around w c s status camera row o e accepts free up object =
    rw e
      (rw accepts (rw free (store_original-taken lib r c around s row camera w {o = o} up object)))

-- An object under the key of a frame without a row keeps every upload of that frame out, of the same
-- bytes too: in an open session, with the capture there and the storage up, the upload raises
-- `STORAGE_OVERWRITE_FORBIDDEN` and writes nothing.
pub stored_object_blocks :
    (lib : Library) (r : FrameUploadRequest) (around : Surroundings) (w : World) (c : Checked)
    (s : Session) (state : SessionState) (camera : CameraSettings) (row : Capture)
    (o : StoredObject)
    → validate lib r ≡ ok c
    → find? (by_public_id r.session_id) w.db.sessions ≡ some s
    → s.status ≡ some state
    → is_open state ≡ true
    → camera_settings s r.source_resolution ≡ some camera
    → find? (capture_key s.id r.capture_id) w.db.captures ≡ some row
    → find? (frame_slot row.id c.frame_index) w.db.frames ≡ none
    → find? (same_frame lib r around c s camera row) w.db.frames ≡ none
    → around.put_outage ≡ none
    → find?
        (at_key pages_originals (frame_key lib r.session_id r.capture_id c.frame_index))
        w.objects
      ≡ some o
    → upload_frame lib r around w ≡ (err (app_error "STORAGE_OVERWRITE_FORBIDDEN" 409), w)
unfolding upload_frame for_checked for_session for_camera for_capture for_frame
stored_object_blocks lib r around w c s state camera row o valid found status accepts configured
      there free free' up object =
    rw valid (
      rw found (
        rw configured (
          rw there (
            rw free (
              open_frame-taken lib r around w c s s.status camera row o status accepts free' up
                object)))))
