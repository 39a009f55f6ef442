-- ===== src/Capture/Upload/Service/Cases.antt =====
-- capture/frame_upload.py: everything that an upload can do to the tables.
use pages_to_rgb.Prelude.{
  ◌≡◌, refl, true, Option, none, some, ◌⊎◌, inl, inr, find?, find?-some-count, find?-none-count,
  arith, if_rule, str_eq,
}
use pages_to_rgb.Common.Exec.{Result, ok, err, Error, app_error, value_error, raised}
use pages_to_rgb.Session.State.{SessionState}
use pages_to_rgb.Capture.Upload.Request.{FrameUploadRequest, Checked, Library, validate}
use pages_to_rgb.Capture.Upload.Rows.{
  CameraSettings, camera_settings, capture_key, frame_slot, new_capture,
}
use pages_to_rgb.Capture.Upload.Flow.{
  World, FrameUploadResult, Surroundings, is_open, by_public_id, result_for, uploaded,
}
use pages_to_rgb.Capture.Upload.Flow.Inserted.{Inserted}
use pages_to_rgb.Capture.Upload.Flow.Original.{store_original-Attempted}
use pages_to_rgb.Capture.Upload.Service.{
  add_capture, known_frame, second_check, same_frame, open_frame, for_frame, open_capture,
  for_capture, for_camera, for_session, for_checked, upload_frame,
}
use pages_to_rgb.Db.{Session, Capture, Frame}

-- The session accepts new frames.
abbrev pub Open : Session → Type 0
Open s = (state : SessionState) × (s.status ≡ some state) × (is_open state ≡ true)

module _ (lib : Library) (r : FrameUploadRequest) (around : Surroundings) (c : Checked)
    (s : Session) where
  -- The frame is there already, with the same digest.
  abbrev pub Known : Capture → World → Result FrameUploadResult × World → Type 0
  Known row w out =
      (f : Frame) × (find? (frame_slot row.id c.frame_index) w.db.frames ≡ some f)
      × (str_eq (lib.lower f.sha256) (lib.lower c.sha256) ≡ true)
      × (out ≡ (ok (result_for lib r c f true), w))

  -- The frame is not there, and the session accepts it.
  abbrev pub Added : CameraSettings → Capture → World → Result FrameUploadResult × World → Type 0
  Added camera row w out =
      (find? (frame_slot row.id c.frame_index) w.db.frames ≡ none)
      × Open s
      × Inserted lib r c around s (uploaded lib r c around s row camera) row w out

  abbrev pub FrameCase :
      CameraSettings → Capture → World → Result FrameUploadResult × World → Type 0
  FrameCase camera row w out =
      ((e : Error) × (out ≡ (err e, w))) ⊎ Known row w out ⊎ Added camera row w out

  module _ (camera : CameraSettings) where
    second_check-Case :
        (row : Capture) (o : Option Frame) (w : World)
        → find? (frame_slot row.id c.frame_index) w.db.frames ≡ none
        → find? (same_frame lib r around c s camera row) w.db.frames ≡ o
        → Open s
        → FrameCase camera row w (second_check lib r around c s camera row o w)
    unfolding second_check
    second_check-Case row (some f) w free found accepts =
        let slot = frame_slot row.id c.frame_index in
        let none_there = find?-none-count slot w.db.frames free in
        let one_there =
          find?-some-count (same_frame lib r around c s camera row) slot w.db.frames {c = f}
            (λ a h. ground arith) found in
        absurd (omega (arith, none_there, one_there))
    second_check-Case row none w free found accepts =
        elim (store_original-Attempted lib r c around s row camera w) [
          | inl e ↦ inl e
          | inr h ↦ inr (inr (free, accepts, h))
        ]

    open_frame-Case :
        (o : Option SessionState) (row : Capture) (w : World)
        → s.status ≡ o
        → find? (frame_slot row.id c.frame_index) w.db.frames ≡ none
        → FrameCase camera row w (open_frame lib r around c s camera o row w)
    unfolding open_frame
    open_frame-Case none row w status free = inl (value_error, refl)
    open_frame-Case (some state) row w status free =
        if_rule (FrameCase camera row w) (is_open state) _ _
          (λ h.
            second_check-Case row (find? (same_frame lib r around c s camera row) w.db.frames) w
              free refl (state, status, h))
          (λ _. inl (app_error "SESSION_LOCKED" 409, refl))

    for_frame-Case :
        (row : Capture) (o : Option Frame) (w : World)
        → find? (frame_slot row.id c.frame_index) w.db.frames ≡ o
        → FrameCase camera row w (for_frame lib r around c s camera row o w)
    unfolding for_frame known_frame
    for_frame-Case row (some f) w found =
        if_rule (FrameCase camera row w) (str_eq (lib.lower f.sha256) (lib.lower c.sha256)) _ _
          (λ h. inr (inl (f, found, h, refl)))
          (λ _. inl (app_error "FRAME_DUPLICATE_CONFLICT" 409, refl))
    for_frame-Case row none w found = open_frame-Case s.status row w refl found

    -- The capture is there, or it is made, in a session that accepts it.
    abbrev pub Placed : World → Result FrameUploadResult × World → Type 0
    Placed w out =
        ((row : Capture) × (find? (capture_key s.id r.capture_id) w.db.captures ≡ some row)
          × FrameCase camera row w out)
        ⊎ ((find? (capture_key s.id r.capture_id) w.db.captures ≡ none)
            × Open s
            × (let row = new_capture around.capture_id s r c camera in
                FrameCase camera row (add_capture row w) out))

    abbrev CaptureCase : World → Result FrameUploadResult × World → Type 0
    CaptureCase w out = ((e : Error) × (out ≡ (err e, w))) ⊎ Placed w out

    new_capture-Case :
        (o : Option SessionState) (w : World)
        → s.status ≡ o
        → find? (capture_key s.id r.capture_id) w.db.captures ≡ none
        → CaptureCase w (open_capture lib r around c s camera o w)
    unfolding open_capture
    new_capture-Case none w status found = inl (value_error, refl)
    new_capture-Case (some state) w status found =
        let row = new_capture around.capture_id s r c camera in
        if_rule (CaptureCase w) (is_open state) _ _
          (λ h. inr (
            inr (
              found,
              (state, status, h),
              for_frame-Case row
                  (find? (frame_slot row.id c.frame_index) (add_capture row w).db.frames)
                  (add_capture row w) refl,
            )))
          (λ _. inl (app_error "SESSION_LOCKED" 409, refl))

    for_capture-Case :
        (o : Option Capture) (w : World)
        → find? (capture_key s.id r.capture_id) w.db.captures ≡ o
        → CaptureCase w (for_capture lib r around c s camera o w)
    unfolding for_capture open_capture
    for_capture-Case (some row) w found = inr (
        inl (
          row,
          found,
          for_frame-Case row (find? (frame_slot row.id c.frame_index) w.db.frames) w refl,
        ))
    for_capture-Case none w found = new_capture-Case s.status w refl found

  abbrev pub ServedCase : World → Result FrameUploadResult × World → Type 0
  ServedCase w out =
      ((e : Error) × (out ≡ (err e, w)))
      ⊎ ((camera : CameraSettings) × (camera_settings s r.source_resolution ≡ some camera)
          × Placed camera w out)

  for_camera-Case :
      (o : Option CameraSettings) (w : World)
      → camera_settings s r.source_resolution ≡ o
      → ServedCase w (for_camera lib r around c s o w)
  unfolding for_camera
  for_camera-Case none w e = inl (raised, refl)
  for_camera-Case (some camera) w e =
      elim (for_capture-Case camera (find? (capture_key s.id r.capture_id) w.db.captures) w refl) [
        | inl h ↦ inl h
        | inr h ↦ inr (camera, e, h)
      ]

module _ (lib : Library) (r : FrameUploadRequest) (around : Surroundings) where
  -- An upload raises and writes nothing, or its request passes the checks, its session is there, and
  -- its frame has found its place.
  abbrev pub UploadCase : World → Result FrameUploadResult × World → Type 0
  UploadCase w out =
      ((e : Error) × (out ≡ (err e, w)))
      ⊎ ((c : Checked) × (s : Session) × (camera : CameraSettings) × (validate lib r ≡ ok c)
          × (find? (by_public_id r.session_id) w.db.sessions ≡ some s)
          × (camera_settings s r.source_resolution ≡ some camera)
          × Placed lib r around c s camera w out)

  for_session-Case :
      (c : Checked) (o : Option Session) (w : World)
      → validate lib r ≡ ok c
      → find? (by_public_id r.session_id) w.db.sessions ≡ o
      → UploadCase w (for_session lib r around c o w)
  unfolding for_session
  for_session-Case c none w valid found = inl (app_error "SESSION_NOT_FOUND" 404, refl)
  for_session-Case c (some s) w valid found =
      elim (for_camera-Case lib r around c s (camera_settings s r.source_resolution) w refl) [
        | inl h ↦ inl h
        | inr (camera, e, h) ↦ inr (c, s, camera, valid, found, e, h)
      ]

  for_checked-Case :
      (o : Result Checked) (w : World)
      → validate lib r ≡ o
      → UploadCase w (for_checked lib r around o w)
  unfolding for_checked
  for_checked-Case (err e) w valid = inl (e, refl)
  for_checked-Case (ok c) w valid =
      for_session-Case c (find? (by_public_id r.session_id) w.db.sessions) w valid refl

  pub upload_frame-Case : (w : World) → UploadCase w (upload_frame lib r around w)
  unfolding upload_frame
  upload_frame-Case w = for_checked-Case (validate lib r) w refl
