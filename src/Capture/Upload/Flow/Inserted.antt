-- ===== src/Capture/Upload/Flow/Inserted.antt =====
-- capture/frame_upload.py: what the part of `upload_frame` below the queries can do.
use pages_to_rgb.Prelude.{ℕ, String, ◌≡◌, refl, false, Option, none, some, List, if_rule}
use pages_to_rgb.Common.Exec.{Result, ok, err, Done, done}
use pages_to_rgb.Capture.Storage.{
  StoredObject, storage_error, overwrite_forbidden, Put, stored, refused, put_object, get_object,
}
use pages_to_rgb.Capture.Storage.Kept.{Kept, PutKept, put_object-Kept}
use pages_to_rgb.Capture.Upload.Request.{FrameUploadRequest, Checked, Library}
use pages_to_rgb.Capture.Upload.Flow.{
  World, FrameUploadResult, Surroundings, result_for, with_frame, insert_frame, finished,
  derivative_of, derivative_put, add_artifact, flush_failed, ocr_key, same_derivative,
}
use pages_to_rgb.Db.{Db, Session, Capture, Frame, pages_derived}

-- The tables of sessions, captures and frames are those of `db`, and the originals of `old` are there.
abbrev pub Tables : Db → List StoredObject → World → Type 0
Tables db old w =
    (w.db.sessions ≡ db.sessions)
    × (w.db.captures ≡ db.captures)
    × (w.db.frames ≡ db.frames)
    × Kept old w.objects

module _ (lib : Library) (r : FrameUploadRequest) (c : Checked) (around : Surroundings)
    (s : Session) where
  add_artifact-Tables :
      (res : Result Done) (f : Frame) (key : String) (bytes : List ℕ) (db : Db)
      (old : List StoredObject) (w : World)
      → Tables db old w
      → Tables db old (add_artifact lib res s f key bytes w).1
  unfolding add_artifact
  add_artifact-Tables (ok _) f key bytes db old w h = h
  add_artifact-Tables (err e) f key bytes db old w h = h

  derivative_put-Tables :
      (p : Put) (f : Frame) (key : String) (bytes : List ℕ) (w : World)
      → PutKept w.objects p
      → Tables w.db w.objects (derivative_put lib p around s f key bytes w).1
  unfolding derivative_put
  derivative_put-Tables (stored objects) f key bytes w k =
      add_artifact-Tables (ok done) f key bytes w.db w.objects (record w { objects = objects })
        (refl, refl, refl, k)
  derivative_put-Tables (refused overwrite_forbidden) f key bytes w k =
      add_artifact-Tables
        (same_derivative lib (get_object around.get_outage pages_derived key w.objects) bytes) f key
        bytes w.db w.objects w (refl, refl, refl, λ _ _ h. h)
  derivative_put-Tables (refused (storage_error code)) f key bytes w k =
      (refl, refl, refl, λ _ _ h. h)

  derivative_of-Tables :
      (bytes : Option (List ℕ)) (f : Frame) (w : World)
      → Tables w.db w.objects (derivative_of lib bytes r c around s f w).1
  unfolding derivative_of
  derivative_of-Tables none f w = (refl, refl, refl, λ _ _ h. h)
  derivative_of-Tables (some bytes) f w =
      derivative_put-Tables
        (put_object around.derived_outage pages_derived (ocr_key lib r c) bytes w.objects) f
        (ocr_key lib r c) bytes w
        (put_object-Kept around.derived_outage pages_derived (ocr_key lib r c) bytes w.objects)

  -- The row is inserted and counted, whether or not the call then raises; what it returns is the
  -- row's result.
  abbrev pub Inserted : Frame → Capture → World → Result FrameUploadResult × World → Type 0
  Inserted f row w out =
      Tables (with_frame lib f row w.db) w.objects out.1
      × ((a : FrameUploadResult) → out.0 ≡ ok a → a ≡ result_for lib r c f false)

  finished-Inserted :
      (f : Frame) (row : Capture) (w : World) (out : Result Done × World)
      → Tables (with_frame lib f row w.db) w.objects out.1
      → Inserted f row w (finished lib r c f out)
  unfolding finished
  finished-Inserted f row w (ok _, w') h = (h, λ a e. cc e)
  finished-Inserted f row w (err x, w') h = (h, λ a e. cc e)

  pub insert_frame-Inserted :
      (f : Frame) (row : Capture) (w : World)
      → Inserted f row w (insert_frame lib r c around s row f w)
  unfolding insert_frame flush_failed
  insert_frame-Inserted f row w =
      let w' : World = record w { db = with_frame lib f row w.db } in
      if_rule (Inserted f row w) around.flush_fails _ _
        (λ _.
          if_rule (Inserted f row w) around.orphan_fails _ _
            (λ _. ((refl, refl, refl, λ _ _ h. h), λ a e. cc e))
            (λ _. ((refl, refl, refl, λ _ _ h. h), λ a e. cc e)))
        (λ _.
          finished-Inserted f row w (derivative_of lib (lib.gray r.bytes) r c around s f w')
            (derivative_of-Tables (lib.gray r.bytes) f w'))
