-- ===== src/Capture/Upload/Flow.antt =====
-- capture/frame_upload.py: `upload_frame` after its checks, with capture/derivatives.py, the keys of
-- storage/keys.py and `record_orphan` of capture/orphans.py. An exception that leaves the function
-- leaves behind what the session holds by then; the unit of work rolls it back, and the objects and
-- the orphans, which have transactions of their own, stay.
pub mod Inserted
pub mod Original
use pages_to_rgb.Prelude.{
  ℕ, String, Bool, true, false, Option, none, some, List, [], ◌∷◌, ◌++◌, update, length, ◌==◌, ◌+◌,
  str_eq, ◌<>◌, if◌then◌else◌,
}
use pages_to_rgb.Common.Value.{text, end, field}
use pages_to_rgb.Common.Exec.{Done, done, Result, ok, err, app_error, raised, Exec}
use pages_to_rgb.Session.State.{SessionState, capturing, capture_end_candidate, capture_locking}
use pages_to_rgb.Capture.Storage.{
  StoredObject, StorageFailure, overwrite_forbidden, is_storage_error, error_of, Put, stored,
  refused, put_object, get_object,
}
use pages_to_rgb.Capture.Upload.Request.{FrameUploadRequest, Checked, Library}
use pages_to_rgb.Capture.Upload.Rows.{CameraSettings, new_frame}
use pages_to_rgb.Db.{
  Db, Session, Capture, Frame, ImageArtifact, StorageOrphan, pages_originals, pages_derived,
}

-- What an upload reads and writes.
pub record World : Type 0 where
  pub db : Db
  pub objects : List StoredObject

pub record FrameUploadResult : Type 0 where
  pub frame_db_id : ℕ
  pub storage_key : String
  pub sha256 : String
  pub size_bytes : ℕ
  pub duplicate : Bool
  pub derived_storage_key : String

-- What happens around one upload: the ids that the database makes, the readings of the clock, the
-- outages of the storage, and whether the database accepts the rows.
pub record Surroundings : Type 0 where
  pub capture_id : ℕ
  pub frame_id : ℕ
  pub orphan_id : ℕ
  pub duration_ms : ℕ
  pub now : ℕ
  pub put_outage : Option String
  pub get_outage : Option String
  pub derived_outage : Option String
  pub flush_fails : Bool
  pub orphan_fails : Bool

-- `UPLOAD_OPEN_STATES`
unfoldable pub is_open : SessionState → Bool
is_open capturing = true
is_open capture_end_candidate = true
is_open capture_locking = true
is_open _ = false

abbrev pub by_public_id : String → Session → Bool
by_public_id public_id s = str_eq s.public_id public_id

module _ (lib : Library) where
  unfoldable pub frame_key : String → String → ℕ → String
  frame_key session_id capture_id frame_index =
      "sessions/"
      <> session_id
      <> "/frames/"
      <> capture_id
      <> "/"
      <> lib.digits frame_index
      <> ".jpg"

  unfoldable pub derived_key : String → String → String → String
  derived_key session_id artifact_type artifact_id =
      "sessions/" <> session_id <> "/derived/" <> artifact_type <> "/" <> artifact_id <> ".jpg"

  unfoldable pub ocr_key : FrameUploadRequest → Checked → String
  unfolding derived_key
  ocr_key r c = derived_key r.session_id "ocr" (r.capture_id <> "-" <> lib.digits c.frame_index)

  parse_received_at : Option String → Option ℕ
  parse_received_at none = none
  parse_received_at (some s) = lib.parse_time s

  unfoldable pub result_for : FrameUploadRequest → Checked → Frame → Bool → FrameUploadResult
  unfolding ocr_key
  result_for r c f duplicate = record {
    frame_db_id = f.id;
    storage_key = f.storage_key;
    sha256 = c.sha256;
    size_bytes = length r.bytes;
    duplicate = duplicate;
    derived_storage_key = ocr_key r c;
  }

  -- `persist_ocr_derivative`, over what the storage made of the put.
  same_derivative : Result (List ℕ) → List ℕ → Result Done
  same_derivative (err e) bytes = err e
  same_derivative (ok existing) bytes =
      if str_eq (lib.lower (lib.sha256 existing)) (lib.lower (lib.sha256 bytes))
      then ok done
      else err (app_error "FRAME_DUPLICATE_CONFLICT" 409)

  artifact : Session → Frame → String → List ℕ → ImageArtifact
  artifact s f key bytes = record {
    session_id = s.id;
    frame_id = f.id;
    artifact_type = "OCR_DERIVED";
    storage_key = key;
    sha256 = lib.sha256 bytes;
    metadata = field "original_storage_key" (text f.storage_key) (
        field "original_sha256" (text f.sha256)
          (field "source" (text "immutable_frame_original") end));
  }

  unfoldable pub add_artifact : Result Done → Session → Frame → String → List ℕ → Exec World Done
  unfolding artifact
  add_artifact (err e) s f key bytes w = (err e, w)
  add_artifact (ok _) s f key bytes w = (
    ok done,
    record w { db = record w.db { artifacts = w.db.artifacts ++ artifact s f key bytes ∷ [] } },
  )

  unfoldable pub derivative_put :
      Put → Surroundings → Session → Frame → String → List ℕ → Exec World Done
  unfolding same_derivative add_artifact
  derivative_put (stored objects) around s f key bytes w =
      add_artifact (ok done) s f key bytes (record w { objects = objects })
  derivative_put (refused overwrite_forbidden) around s f key bytes w =
      add_artifact
        (same_derivative (get_object around.get_outage pages_derived key w.objects) bytes) s f key
        bytes w
  derivative_put (refused failure) around s f key bytes w = (err (error_of failure), w)

  unfoldable pub derivative_of :
      Option (List ℕ)
      → FrameUploadRequest
      → Checked
      → Surroundings
      → Session
      → Frame
      → Exec World Done
  unfolding derivative_put ocr_key
  derivative_of none r c around s f w = (err raised, w)
  derivative_of (some bytes) r c around s f w =
      derivative_put (put_object around.derived_outage pages_derived (ocr_key r c) bytes w.objects)
        around s f (ocr_key r c) bytes w

  orphan : Surroundings → Session → Frame → StorageOrphan
  orphan around s f = record {
    id = around.orphan_id;
    bucket = pages_originals;
    key = f.storage_key;
    sha256 = f.sha256;
    session_id = s.id;
    resolved_at = none;
    resolution = none;
  }

  -- The flush that failed: the original is recorded as an orphan, if that succeeds.
  flush_failed : Surroundings → Session → Frame → Exec World FrameUploadResult
  unfolding orphan
  flush_failed around s f w = if around.orphan_fails then (err raised, w) else (
    err raised,
    record w { db = record w.db { orphans = w.db.orphans ++ orphan around s f ∷ [] } },
  )

  unfoldable pub finished :
      FrameUploadRequest → Checked → Frame → Result Done × World → Result FrameUploadResult × World
  unfolding result_for
  finished r c f (ok _, w) = (ok (result_for r c f false), w)
  finished r c f (err e, w) = (err e, w)

  unfoldable pub with_frame : Frame → Capture → Db → Db
  with_frame f row db = record db {
    frames = db.frames ++ f ∷ [];
    captures =
        update (λ (k : Capture). k.id == row.id)
          (λ k. record k { received_frames = k.received_frames + 1 }) db.captures;
  }

  unfoldable pub insert_frame :
      FrameUploadRequest
      → Checked
      → Surroundings
      → Session
      → Capture
      → Frame
      → Exec World FrameUploadResult
  unfolding flush_failed finished derivative_of
  insert_frame r c around s row f w =
      let w' : World = record w { db = with_frame f row w.db } in
      if around.flush_fails
      then flush_failed around s f w'
      else finished r c f (derivative_of (lib.gray r.bytes) r c around s f w')

  -- Below `put_object` for the original: an exception that `except StorageError` catches is raised
  -- again unless it forbids to overwrite; any other leaves the function at once.
  same_original : Result (List ℕ) → Checked → Result Done
  same_original (err e) c = err e
  same_original (ok existing) c =
      if str_eq (lib.lower (lib.sha256 existing)) (lib.lower c.sha256)
      then ok done
      else err (app_error "FRAME_DUPLICATE_CONFLICT" 409)

  caught : StorageFailure → Surroundings → Checked → String → List StoredObject → Result Done
  unfolding same_original
  caught overwrite_forbidden around c key objects =
      same_original (get_object around.get_outage pages_originals key objects) c
  caught failure around c key objects = err (error_of failure)

  unfoldable pub handle_put :
      Put → Surroundings → Checked → String → List StoredObject → Result (List StoredObject)
  unfolding caught
  handle_put (stored objects) around c key old = ok objects
  handle_put (refused failure) around c key old =
      if is_storage_error failure
      then elim (caught failure around c key old) [ ok _ ↦ ok old | err e ↦ err e ]
      else err (error_of failure)

  unfoldable pub uploaded :
      FrameUploadRequest → Checked → Surroundings → Session → Capture → CameraSettings → Frame
  unfolding parse_received_at
  uploaded r c around s row camera =
      new_frame around.frame_id s row.id r c camera
        (frame_key r.session_id r.capture_id c.frame_index)
        (parse_received_at r.received_android_at, around.duration_ms, around.now)

  unfoldable pub after_put :
      Result (List StoredObject)
      → FrameUploadRequest
      → Checked
      → Surroundings
      → Session
      → Capture
      → CameraSettings
      → Exec World FrameUploadResult
  unfolding insert_frame
  after_put (err e) r c around s row camera w = (err e, w)
  after_put (ok objects) r c around s row camera w =
      insert_frame r c around s row (uploaded r c around s row camera)
        (record w { objects = objects })

  unfoldable pub store_original :
      FrameUploadRequest
      → Checked
      → Surroundings
      → Session
      → Capture
      → CameraSettings
      → Exec World FrameUploadResult
  unfolding after_put handle_put
  store_original r c around s row camera w =
      let key = frame_key r.session_id r.capture_id c.frame_index in
      after_put
        (handle_put (put_object around.put_outage pages_originals key r.bytes w.objects) around c
          key w.objects)
        r c around s row camera w
