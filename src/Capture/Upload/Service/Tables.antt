-- ===== src/Capture/Upload/Service/Tables.antt =====
-- capture/frame_upload.py: what every upload keeps of the tables and of the storage.
use pages_to_rgb.Prelude.{◌≡◌, none, inl, inr, find?}
use pages_to_rgb.Common.Exec.{Result, ok}
use pages_to_rgb.Capture.Storage.Kept.{Kept}
use pages_to_rgb.Capture.Upload.Request.{FrameUploadRequest, Checked, Library, validate}
use pages_to_rgb.Capture.Upload.Rows.{CameraSettings, capture_key, frame_slot, new_capture}
use pages_to_rgb.Capture.Upload.Flow.{World, FrameUploadResult, Surroundings, with_frame, uploaded}
use pages_to_rgb.Capture.Upload.Service.{add_capture, upload_frame}
use pages_to_rgb.Capture.Upload.Service.Cases.{FrameCase, UploadCase, upload_frame-Case}
use pages_to_rgb.Db.{Session, Capture}

-- A property of the captures, the frames and the objects that holds before an upload and that its
-- two writes keep holds after it.
abbrev pub KeepsCapture :
    (World → Type 0) → Library → FrameUploadRequest → Surroundings → World → Type 0
KeepsCapture P lib r around w =
    (c : Checked) (s : Session) (camera : CameraSettings)
    → find? (capture_key s.id r.capture_id) w.db.captures ≡ none
    → P w
    → P (add_capture (new_capture around.capture_id s r c camera) w)

abbrev pub KeepsFrame : (World → Type 0) → Library → FrameUploadRequest → Surroundings → Type 0
KeepsFrame P lib r around =
    (c : Checked) (s : Session) (camera : CameraSettings) (row : Capture) (w w' : World)
    → validate lib r ≡ ok c
    → find? (frame_slot row.id c.frame_index) w.db.frames ≡ none
    → w'.db.captures ≡ (with_frame lib (uploaded lib r c around s row camera) row w.db).captures
    → w'.db.frames ≡ (with_frame lib (uploaded lib r c around s row camera) row w.db).frames
    → Kept w.objects w'.objects
    → P w
    → P w'

module _ (P : World → Type 0) (lib : Library) (r : FrameUploadRequest) (around : Surroundings)
    (frame : KeepsFrame P lib r around) where
  frame_case-keeps :
      (c : Checked) (s : Session) (camera : CameraSettings) (row : Capture) (w : World)
      (out : Result FrameUploadResult × World)
      → validate lib r ≡ ok c
      → FrameCase lib r around c s camera row w out
      → P w
      → P out.1
  frame_case-keeps c s camera row w out valid (inl (e, h)) p = rw h p
  frame_case-keeps c s camera row w out valid (inr (inl (f, _, _, h))) p = rw h p
  frame_case-keeps c s camera row w out valid
        (inr (inr (free, _, ((_, captures, frames, kept), _)))) p =
      frame c s camera row w out.1 valid free captures frames kept p

  case-keeps :
      (w : World) (out : Result FrameUploadResult × World)
      → UploadCase lib r around w out
      → KeepsCapture P lib r around w
      → P w
      → P out.1
  case-keeps w out (inl (e, h)) capture p = rw h p
  case-keeps w out (inr (c, s, camera, valid, _, _, inl (row, _, h))) capture p =
      frame_case-keeps c s camera row w out valid h p
  case-keeps w out (inr (c, s, camera, valid, _, _, inr (missing, _, h))) capture p =
      let row = new_capture around.capture_id s r c camera in
      frame_case-keeps c s camera row (add_capture row w) out valid h (capture c s camera missing p)

  pub upload-keeps :
      (w : World) → KeepsCapture P lib r around w → P w → P (upload_frame lib r around w).1
  upload-keeps w = case-keeps w (upload_frame lib r around w) (upload_frame-Case lib r around w)
