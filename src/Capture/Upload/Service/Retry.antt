-- ===== src/Capture/Upload/Service/Retry.antt =====
-- capture/frame_upload.py: an upload that is sent again.
use pages_to_rgb.Prelude.{
  ℕ, ◌≡◌, ◌∙◌, sym, ap, refl, true, false, Bool, ◌==◌, ◌+◌, none, some, inl, inr, List, [], ◌∷◌,
  ◌++◌, find?, find?-update, find?-append_none, ==_refl, eq_refl, arith, if_rule, str_eq,
  if◌then◌else◌,
}
use pages_to_rgb.Common.Exec.{Result, ok}
use pages_to_rgb.Capture.Upload.Request.{FrameUploadRequest, Checked, Library, validate}
use pages_to_rgb.Capture.Upload.Rows.{
  CameraSettings, camera_settings, capture_key, frame_slot, new_capture, new_frame,
}
use pages_to_rgb.Capture.Upload.Flow.{
  World, FrameUploadResult, Surroundings, by_public_id, result_for, with_frame, uploaded,
}
use pages_to_rgb.Capture.Upload.Service.{
  add_capture, for_checked, for_session, for_camera, for_capture, for_frame, known_frame,
  upload_frame,
}
use pages_to_rgb.Capture.Upload.Service.Cases.{FrameCase, Placed, upload_frame-Case}
use pages_to_rgb.Db.{Db, Session, Capture, Frame}

module _ (lib : Library) (r : FrameUploadRequest) (c : Checked) where
  -- The tables hold the frame of the request, and `a` is what its upload returned.
  abbrev Holds : ℕ → FrameUploadResult → List Capture → List Frame → Type 0
  Holds session_id a captures frames =
      (row : Capture) × (f : Frame) × (find? (capture_key session_id r.capture_id) captures
        ≡ some row)
      × (find? (frame_slot row.id c.frame_index) frames ≡ some f)
      × (str_eq (lib.lower f.sha256) (lib.lower c.sha256) ≡ true)
      × (record a { duplicate = true } ≡ result_for lib r c f true)

  same_result :
      (f : Frame) (d : Bool)
      → record (result_for lib r c f d) { duplicate = true } ≡ result_for lib r c f true
  unfolding result_for
  same_result f d = refl

  returned_again :
      (f : Frame) (d : Bool) {a : FrameUploadResult}
      → ok (result_for lib r c f d) ≡ ok a
      → record a { duplicate = true } ≡ result_for lib r c f true
  returned_again f d {a} h = let e : a ≡ result_for lib r c f d = cc h in rw e (same_result f d)

  held_again :
      (around : Surroundings) (s : Session) (w : World) {camera : CameraSettings}
      (a : FrameUploadResult)
      → validate lib r ≡ ok c
      → find? (by_public_id r.session_id) w.db.sessions ≡ some s
      → camera_settings s r.source_resolution ≡ some camera
      → Holds s.id a w.db.captures w.db.frames
      → upload_frame lib r around w ≡ (ok (record a { duplicate = true }), w)
  unfolding upload_frame for_checked for_session for_camera for_capture for_frame known_frame
  held_again around s w a valid found configured (row, f, in_capture, in_slot, same, result) =
      rw valid (rw found (rw configured (rw in_capture (rw in_slot (rw same (rw result refl))))))

  uploaded_fields :
      (around : Surroundings) (s : Session) (row : Capture) (camera : CameraSettings)
      → (frame_slot row.id c.frame_index (uploaded lib r c around s row camera) ≡ true)
        × ((uploaded lib r c around s row camera).sha256 ≡ c.sha256)
  unfolding uploaded new_frame
  uploaded_fields around s row camera =
      (ground (arith, ==_refl row.id, ==_refl c.frame_index), refl)

  find-with_frame :
      (session_id : ℕ) (f : Frame) (row : Capture) (db : Db)
      → find? (capture_key session_id r.capture_id) db.captures ≡ some row
      → (row' : Capture) × (find?
            (capture_key session_id r.capture_id)
            (with_frame lib f row db).captures
          ≡ some row')
        × (row'.id ≡ row.id)
        × ((with_frame lib f row db).frames ≡ db.frames ++ f ∷ [])
  unfolding with_frame
  find-with_frame session_id f row db h =
      let bump : Capture → Capture = λ k. record k { received_frames = k.received_frames + 1 } in
      (
        if row.id == row.id then bump row else row,
        find?-update (capture_key session_id r.capture_id) (λ k. k.id == row.id) bump db.captures
            (λ _. refl) h,
        if_rule (λ (k : Capture). k.id ≡ row.id) (row.id == row.id) (bump row) row (λ _. refl)
            (λ _. refl),
        refl,
      )

  find-new_frame :
      (p : Frame → Bool) (frames : List Frame) (f : Frame)
      → find? p frames ≡ none
      → p f ≡ true
      → find? p (frames ++ f ∷ []) ≡ some f
  find-new_frame p frames f free h = find?-append_none p frames (f ∷ []) free ∙ rw h refl

  FrameCase-Holds :
      (around : Surroundings) (s : Session) (camera : CameraSettings) (row : Capture) (w : World)
      (out : Result FrameUploadResult × World) {a : FrameUploadResult}
      → find? (capture_key s.id r.capture_id) w.db.captures ≡ some row
      → FrameCase lib r around c s camera row w out
      → out.0 ≡ ok a
      → Holds s.id a out.1.db.captures out.1.db.frames
  FrameCase-Holds around s camera row w out there (inl (e, h)) ran = cc (ap (λ o. o.0) h, ran)
  FrameCase-Holds around s camera row w out {a} there (inr (inl (f, in_slot, same, h))) ran =
      rw h (row, f, there, in_slot, same, returned_again f true (sym (ap (λ o. o.0) h) ∙ ran))
  FrameCase-Holds around s camera row w out {a} there
        (inr (inr (free, _, ((_, captures, frames, _), result)))) ran =
      let f = uploaded lib r c around s row camera in
      let fields = uploaded_fields around s row camera in
      let (row', there', same_id, appended) = find-with_frame s.id f row w.db there in
      rw captures (
        rw frames (
          row',
          f,
          there',
          rw appended (
              rw same_id
                (find-new_frame (frame_slot row.id c.frame_index) w.db.frames f free fields.0)),
          rw fields.1 (eq_refl (lib.lower c.sha256)),
          rw (result a ran) (same_result f false),
        ))

  -- The capture that an upload makes is found by its key.
  new_capture-found :
      (around : Surroundings) (s : Session) (camera : CameraSettings)
      → capture_key s.id r.capture_id (new_capture around.capture_id s r c camera) ≡ true
  unfolding new_capture
  new_capture-found around s camera = ground (arith, ==_refl s.id, eq_refl r.capture_id)

  Placed-Holds :
      (around : Surroundings) (s : Session) (camera : CameraSettings) (w : World)
      (out : Result FrameUploadResult × World) {a : FrameUploadResult}
      → Placed lib r around c s camera w out
      → out.0 ≡ ok a
      → Holds s.id a out.1.db.captures out.1.db.frames
  Placed-Holds around s camera w out (inl (row, there, h)) ran =
      FrameCase-Holds around s camera row w out there h ran
  Placed-Holds around s camera w out (inr (missing, _, h)) ran =
      let row = new_capture around.capture_id s r c camera in
      FrameCase-Holds around s camera row (add_capture row w) out
        (find?-append_none (capture_key s.id r.capture_id) w.db.captures (row ∷ []) missing
          ∙ rw (new_capture-found around s camera) refl)
        h ran

-- An upload that has been accepted can be sent again at any later time, in any surroundings and in
-- any state of its session, while the rows of captures and frames are those it left: it is confirmed
-- as a duplicate, with the same ids, keys and digest, and nothing is written. The session's row must
-- still have its id and a camera configuration that can be read.
pub upload_repeated :
    (lib : Library) (r : FrameUploadRequest) (around around' : Surroundings) (w later : World)
    (a : FrameUploadResult) {s s' : Session} {camera : CameraSettings}
    → (upload_frame lib r around w).0 ≡ ok a
    → later.db.captures ≡ (upload_frame lib r around w).1.db.captures
    → later.db.frames ≡ (upload_frame lib r around w).1.db.frames
    → find? (by_public_id r.session_id) w.db.sessions ≡ some s
    → find? (by_public_id r.session_id) later.db.sessions ≡ some s'
    → s'.id ≡ s.id
    → camera_settings s' r.source_resolution ≡ some camera
    → upload_frame lib r around' later ≡ (ok (record a { duplicate = true }), later)
upload_repeated lib r around around' w later a {s} {s'} {camera} ran captures frames found found'
      same_id configured =
    elim (upload_frame-Case lib r around w) [
      | inl (e, h) ↦ cc (ap (λ o. o.0) h, ran)
      | inr (c, s₀, camera₀, valid, found₀, _, placed) ↦
          (let held =
              Placed-Holds lib r c around s₀ camera₀ w (upload_frame lib r around w) placed ran in
            let same : s₀.id ≡ s'.id = cc (found, found₀, same_id) in
            held_again lib r c around' s' later a valid found' configured
              (rw captures (rw frames (rw (sym same) held))))
    ]
