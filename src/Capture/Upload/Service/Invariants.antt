-- ===== src/Capture/Upload/Service/Invariants.antt =====
-- capture/frame_upload.py: the keys, the counts and the bounds that every upload keeps.
use pages_to_rgb.Prelude.{
  ℕ, ◌≡◌, ◌≤◌, refl, sym, Option, none, some, [], ◌∷◌, find?, count, All, All-append,
}
use pages_to_rgb.Capture.Upload.Request.{FrameUploadRequest, Checked, Library, max_frame_size}
use pages_to_rgb.Capture.Upload.Request.Bounds.{Side, Bounded, validate-Bounded}
use pages_to_rgb.Capture.Upload.Rows.{CameraSettings, capture_key, new_capture, new_frame}
use pages_to_rgb.Capture.Storage.Kept.{Kept}
use pages_to_rgb.Capture.Upload.Flow.{World, Surroundings, uploaded}
use pages_to_rgb.Capture.Upload.Keys.{
  Unique, Counted, of_capture, captures-Unique, written, inserted-Unique, inserted-Counted,
}
use pages_to_rgb.Capture.Upload.Service.{add_capture, upload_frame}
use pages_to_rgb.Capture.Upload.Service.Tables.{upload-keeps}
use pages_to_rgb.Db.{Session, Capture, Frame}

-- What the two writes make of the tables.
module _ (lib : Library) (r : FrameUploadRequest) (around : Surroundings) (c : Checked)
    (s : Session) (camera : CameraSettings) where
  uploaded_keys :
      (row : Capture)
      → let f = uploaded lib r c around s row camera in
        (f.capture_id ≡ row.id) × (f.frame_index ≡ c.frame_index)
  unfolding uploaded new_frame
  uploaded_keys row = (refl, refl)

  capture_fields :
      let k = new_capture around.capture_id s r c camera in
      (k.session_id ≡ s.id)
      × (k.capture_id ≡ r.capture_id)
      × (k.id ≡ around.capture_id)
      × (k.received_frames ≡ 0)
  unfolding new_capture
  capture_fields = (refl, refl, refl, refl)

  capture-Unique :
      (w : World)
      → find? (capture_key s.id r.capture_id) w.db.captures ≡ none
      → Unique w
      → Unique (add_capture (new_capture around.capture_id s r c camera) w)
  capture-Unique w missing (one_frame, one_capture) =
      let k = new_capture around.capture_id s r c camera in
      let fields = capture_fields in
      (
        one_frame,
        λ i id.
            captures-Unique k w.db.captures i id (rw (fields.0) (rw (fields.1) missing))
              (one_capture i id),
      )

  capture-Counted :
      (w : World)
      → count (of_capture around.capture_id) w.db.frames ≡ 0
      → Counted w
      → Counted (add_capture (new_capture around.capture_id s r c camera) w)
  capture-Counted w fresh h =
      let fields = capture_fields in
      let k = new_capture around.capture_id s r c camera in
      All-append (λ (k : Capture). k.received_frames ≡ count (of_capture k.id) w.db.frames)
        w.db.captures (k ∷ []) h (rw (fields.2) (rw (fields.3) (sym fresh)), tt)

-- No upload stores a second row for a frame of a capture or a second capture for an id of a session.
pub upload-Unique :
    (lib : Library) (r : FrameUploadRequest) (around : Surroundings) (w : World)
    → Unique w
    → Unique (upload_frame lib r around w).1
upload-Unique lib r around w =
    upload-keeps Unique lib r around
      (λ c s camera row w w' _ free captures frames _.
        let keys = uploaded_keys lib r around c s camera row in
        inserted-Unique lib row (uploaded lib r c around s row camera) w w'
          (rw (keys.0) (rw (keys.1) free)) captures frames)
      w (λ c s camera missing. capture-Unique lib r around c s camera w missing)

-- The counter of every capture stays the number of its frames, where the id that the database gives
-- to a new capture belongs to no frame yet.
pub upload-Counted :
    (lib : Library) (r : FrameUploadRequest) (around : Surroundings) (w : World)
    → count (of_capture around.capture_id) w.db.frames ≡ 0
    → Counted w
    → Counted (upload_frame lib r around w).1
upload-Counted lib r around w fresh =
    upload-keeps Counted lib r around
      (λ c s camera row w w' _ _ captures frames _.
        inserted-Counted lib row (uploaded lib r c around s row camera) w w'
          (uploaded_keys lib r around c s camera row).0 captures frames)
      w (λ c s camera _. capture-Counted lib r around c s camera w fresh)

-- Every original that is stored stays, with its bytes, whatever is uploaded.
pub upload-Kept :
    (lib : Library) (r : FrameUploadRequest) (around : Surroundings) (w : World)
    → Kept w.objects (upload_frame lib r around w).1.objects
upload-Kept lib r around w =
    upload-keeps (λ w'. Kept w.objects w'.objects) lib r around
      (λ c s camera row w₁ w₂ _ _ _ _ kept before key o h. kept key o (before key o h)) w
      (λ c s camera _ before. before) (λ key o h. h)

-- A frame's file is at most 10 MiB long, and its sides, where they are known, are 64 to 8192 pixels.
abbrev SideOf : Option ℕ → Type 0
SideOf none = Unit
SideOf (some n) = Side n

abbrev pub InBounds : Frame → Type 0
InBounds f = (f.content_length ≤ max_frame_size) × SideOf f.width × SideOf f.height

uploaded-InBounds :
    (lib : Library) (r : FrameUploadRequest) (c : Checked) (around : Surroundings) (s : Session)
    (row : Capture) (camera : CameraSettings)
    → Bounded r c
    → InBounds (uploaded lib r c around s row camera)
unfolding uploaded new_frame
uploaded-InBounds lib r c around s row camera h = h

-- Every frame that an upload stores has at most 10 MiB and sides of 64 to 8192 pixels.
pub upload-InBounds :
    (lib : Library) (r : FrameUploadRequest) (around : Surroundings) (w : World)
    → All InBounds w.db.frames
    → All InBounds (upload_frame lib r around w).1.db.frames
upload-InBounds lib r around w =
    upload-keeps (λ w. All InBounds w.db.frames) lib r around
      (λ c s camera row w w' valid _ _ frames _ h.
        let f = uploaded lib r c around s row camera in
        rw frames (
          rw ((written lib row f w.db).1) (
            All-append InBounds w.db.frames (f ∷ []) h (
              uploaded-InBounds lib r c around s row camera (validate-Bounded lib r c valid),
              tt,
            ))))
      w (λ c s camera _ h. h)
