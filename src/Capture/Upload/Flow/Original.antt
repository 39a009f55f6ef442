-- ===== src/Capture/Upload/Flow/Original.antt =====
-- capture/frame_upload.py: the put of the original, and all that can come of it.
use pages_to_rgb.Prelude.{String, ◌≡◌, refl, none, some, ◌⊎◌, inl, inr, find?}
use pages_to_rgb.Common.Exec.{Result, err, Error, app_error}
use pages_to_rgb.Capture.Storage.{
  StoredObject, storage_error, overwrite_forbidden, Put, stored, refused, put_object,
  is_storage_error, error_of, at_key,
}
use pages_to_rgb.Capture.Storage.Kept.{PutKept, put_object-Kept, put_object-taken}
use pages_to_rgb.Capture.Upload.Request.{FrameUploadRequest, Checked, Library}
use pages_to_rgb.Capture.Upload.Rows.{CameraSettings}
use pages_to_rgb.Capture.Upload.Flow.{
  World, FrameUploadResult, Surroundings, store_original, after_put, handle_put, caught, frame_key,
  uploaded,
}
use pages_to_rgb.Capture.Upload.Flow.Inserted.{Inserted, insert_frame-Inserted}
use pages_to_rgb.Db.{Session, Capture, Frame, pages_originals}

module _ (lib : Library) (r : FrameUploadRequest) (c : Checked) (around : Surroundings)
    (s : Session) where
  -- It raises before a row is written, or the row is inserted.
  abbrev pub Attempted : Frame → Capture → World → Result FrameUploadResult × World → Type 0
  Attempted f row w out = ((e : Error) × (out ≡ (err e, w))) ⊎ Inserted lib r c around s f row w out

  after_put-Attempted :
      (p : Put) (row : Capture) (camera : CameraSettings) (key : String) (w : World)
      → PutKept w.objects p
      → Attempted
          (uploaded lib r c around s row camera)
          row
          w
          (after_put lib (handle_put lib p around c key w.objects) r c around s row camera w)
  unfolding after_put handle_put caught is_storage_error
  after_put-Attempted (stored objects) row camera key w k =
      let ((a, b, d, e), res) =
        insert_frame-Inserted lib r c around s (uploaded lib r c around s row camera) row
          (record w { objects = objects }) in
      inr ((a, b, d, λ key' o h. e key' o (k key' o h)), res)
  after_put-Attempted (refused (storage_error code)) row camera key w k =
      inl (error_of (storage_error code), refl)
  after_put-Attempted (refused overwrite_forbidden) row camera key w k =
      inl (error_of overwrite_forbidden, refl)

  pub store_original-Attempted :
      (row : Capture) (camera : CameraSettings) (w : World)
      → Attempted
          (uploaded lib r c around s row camera)
          row
          w
          (store_original lib r c around s row camera w)
  unfolding store_original
  store_original-Attempted row camera w =
      let key = frame_key lib r.session_id r.capture_id c.frame_index in
      after_put-Attempted (put_object around.put_outage pages_originals key r.bytes w.objects) row
        camera key w (put_object-Kept around.put_outage pages_originals key r.bytes w.objects)

  -- Where the object of the frame is there, it raises, whatever the bytes of that object are.
  pub store_original-taken :
      (row : Capture) (camera : CameraSettings) (w : World) {o : StoredObject}
      → around.put_outage ≡ none
      → find?
          (at_key pages_originals (frame_key lib r.session_id r.capture_id c.frame_index))
          w.objects
        ≡ some o
      → store_original lib r c around s row camera w
        ≡ (err (app_error "STORAGE_OVERWRITE_FORBIDDEN" 409), w)
  unfolding store_original after_put handle_put is_storage_error error_of
  store_original-taken row camera w {o} up there = rw up (
      rw
        (put_object-taken (frame_key lib r.session_id r.capture_id c.frame_index) r.bytes w.objects
          there)
        refl)
