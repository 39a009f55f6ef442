-- ===== src/Tests/Uploads.antt =====
-- Uploads and the reconciliation of orphans on sample data.
use pages_to_rgb.Prelude.{
  ℕ, pos, ◌≡◌, refl, true, false, none, some, List, [], ◌∷◌, find?, All, length, take, select,
  arith,
}
use pages_to_rgb.Common.Exec.{ok, err, app_error}
use pages_to_rgb.Common.Value.{get}
use pages_to_rgb.Session.State.{SessionState, capturing, locked}
use pages_to_rgb.Capture.Storage.{StoredObject, at_key, put_object, put_at}
use pages_to_rgb.Capture.Upload.Request.{
  FrameUploadRequest, Checked, Library, image, validate, check_index, check_number, validate_mime,
  magic_bytes, check_size, validate_image_content, check_hash,
}
use pages_to_rgb.Capture.Upload.Rows.{
  CameraSettings, camera_settings, or_empty, technical_config, as_fields, with_technical,
  settings_from, new_capture, new_frame,
}
use pages_to_rgb.Capture.Upload.Flow.{
  World, FrameUploadResult, Surroundings, is_open, frame_key, store_original, handle_put, after_put,
  insert_frame, derivative_of, derivative_put, add_artifact, finished, result_for, uploaded,
  with_frame, ocr_key, derived_key,
}
use pages_to_rgb.Capture.Upload.Service.{
  upload_frame, for_checked, for_session, for_camera, for_capture, open_capture, for_frame,
  open_frame, second_check,
}
use pages_to_rgb.Capture.Upload.Service.Retry.{upload_repeated}
use pages_to_rgb.Capture.Upload.Service.Closed.{closed_takes_nothing, stored_object_blocks}
use pages_to_rgb.Capture.Upload.Keys.{Unique, Counted}
use pages_to_rgb.Capture.Upload.Service.Invariants.{
  upload-Unique, upload-Counted, upload-Kept, upload-InBounds, InBounds,
}
use pages_to_rgb.Capture.Storage.Kept.{Kept}
use pages_to_rgb.Capture.Orphans.{Job, reconcile, unresolved}
use pages_to_rgb.Capture.Orphans.Reconciled.{reconcile-keeps, total}
use pages_to_rgb.Db.{StorageOrphan, Capture, pages_originals}
use pages_to_rgb.Tests.Data.{session_in, db_in}

abbrev pub jpeg : List ℕ
jpeg = 255 ∷ 216 ∷ 255 ∷ 7 ∷ []

abbrev pub library : Library
library = record {
  sha256 = λ bytes. "digest";
  lower = λ s. s;
  digits = λ n. "0";
  parse_time = λ s. none;
  decode = λ bytes. image 1600 1200;
  gray = λ bytes. some bytes;
}

abbrev pub request : FrameUploadRequest
request = record {
  session_id = "s1";
  capture_id = "cap-1";
  frame_index = pos 0;
  declared_sha256 = "digest";
  bytes = jpeg;
  mime_type = "image/jpeg";
  received_android_at = none;
  capture_source = "ESP32_CAMERA";
  android_orientation = none;
  source_resolution = none;
  page_number = some (pos 1);
  frame_number = none;
}

abbrev pub around : Surroundings
around = record {
  capture_id = 8;
  frame_id = 9;
  orphan_id = 10;
  duration_ms = 3;
  now = 50;
  put_outage = none;
  get_outage = none;
  derived_outage = none;
  flush_fails = false;
  orphan_fails = false;
}

abbrev pub world_in : SessionState → World
world_in state = record { db = db_in state; objects = [] }

abbrev result : FrameUploadResult
result = record {
  frame_db_id = 9;
  storage_key = "sessions/s1/frames/cap-1/0.jpg";
  sha256 = "digest";
  size_bytes = 4;
  duplicate = false;
  derived_storage_key = "sessions/s1/derived/ocr/cap-1-0.jpg";
}

first_upload : (upload_frame library request around (world_in capturing)).0 ≡ ok result
unfolding upload_frame validate check_index check_number validate_mime magic_bytes check_size
    validate_image_content check_hash for_checked for_session get camera_settings or_empty
    technical_config as_fields with_technical settings_from for_camera for_capture open_capture
    is_open for_frame open_frame second_check store_original handle_put put_object put_at after_put
    insert_frame derivative_of derivative_put add_artifact finished result_for uploaded with_frame
    ocr_key derived_key frame_key new_capture new_frame
first_upload = refl

-- The rows of the first upload, in a session that has been locked since.
abbrev later_world : World
later_world = record {
  db = record (upload_frame library request around (world_in capturing)).1.db {
    sessions = session_in locked ∷ [];
  };
  objects = [];
}

readable : (camera : CameraSettings) × (camera_settings (session_in locked) none ≡ some camera)
unfolding get camera_settings or_empty technical_config as_fields with_technical settings_from
readable = (_, refl)

upload_repeated_example :
    upload_frame library request around later_world
    ≡ (ok (record result { duplicate = true }), later_world)
upload_repeated_example =
    upload_repeated library request around around (world_in capturing) later_world result
      {s = session_in capturing} {s' = session_in locked} {camera = readable.0} first_upload refl
      refl refl refl refl readable.1

locked_is_closed : is_open locked ≡ false
unfolding is_open
locked_is_closed = refl

closed_takes_nothing_example :
    (upload_frame library request around (world_in locked)).1 ≡ world_in locked
closed_takes_nothing_example =
    closed_takes_nothing library request around (world_in locked) {s = session_in locked}
      {state = locked} refl refl locked_is_closed

abbrev checked : Checked
checked = record {
  frame_index = 0;
  page_number = some 1;
  frame_number = none;
  width = 1600;
  height = 1200;
  sha256 = "digest";
}

request_is_valid : validate library request ≡ ok checked
unfolding validate check_index check_number validate_mime magic_bytes check_size
    validate_image_content check_hash
request_is_valid = refl

abbrev pub capture : Capture
capture = record {
  id = 8;
  session_id = 1;
  capture_id = "cap-1";
  mode = "full";
  command_cursor = 0;
  requested_frames = 3;
  received_frames = 0;
  status = "open";
  capture_source = "ESP32_CAMERA";
  session_type = "EXAM";
  camera_profile_revision_id = none;
  camera_profile_snapshot_json = none;
  requested_camera_config_json = none;
  effective_camera_config_json = none;
  firmware_version = none;
  capabilities_version = none;
  page_number = none;
  requested_resolution = none;
  effective_resolution = none;
  requested_esp_jpeg_quality = none;
  effective_esp_jpeg_quality = none;
  configured_buffer_bytes = none;
  dma_enabled = none;
  expected_frames = none;
  completed_at = none;
}

abbrev object : StoredObject
object = record { bucket = pages_originals; key = "sessions/s1/frames/cap-1/0.jpg"; bytes = jpeg }

abbrev orphan : StorageOrphan
orphan = record {
  id = 10;
  bucket = pages_originals;
  key = "sessions/s1/frames/cap-1/0.jpg";
  sha256 = "digest";
  session_id = 1;
  resolved_at = none;
  resolution = none;
}

-- The object of an upload whose rows were rolled back.
abbrev pub orphan_world : World
orphan_world = record {
  db = record (db_in capturing) { captures = capture ∷ []; orphans = orphan ∷ [] };
  objects = object ∷ [];
}

capturing_is_open : is_open capturing ≡ true
unfolding is_open
capturing_is_open = refl

readable_open :
    (camera : CameraSettings) × (camera_settings (session_in capturing) none ≡ some camera)
unfolding get camera_settings or_empty technical_config as_fields with_technical settings_from
readable_open = (_, refl)

object_is_there :
    find? (at_key pages_originals (frame_key library "s1" "cap-1" 0)) orphan_world.objects
    ≡ some object
unfolding frame_key
object_is_there = refl

stored_object_blocks_example :
    upload_frame library request around orphan_world
    ≡ (err (app_error "STORAGE_OVERWRITE_FORBIDDEN" 409), orphan_world)
stored_object_blocks_example =
    stored_object_blocks library request around orphan_world checked (session_in capturing)
      capturing readable_open.0 capture object request_is_valid refl refl capturing_is_open
      readable_open.1 refl refl refl refl object_is_there

empty_counts : Unique (world_in capturing)
empty_counts = (λ i j. omega arith, λ i id. omega arith)

orphan_counts : Unique orphan_world
orphan_counts = (λ i j. omega arith, λ i id. ground arith)

upload-Unique_example : Unique (upload_frame library request around (world_in capturing)).1
upload-Unique_example = upload-Unique library request around (world_in capturing) empty_counts

upload-Counted_example : Counted (upload_frame library request around orphan_world).1
upload-Counted_example = upload-Counted library request around orphan_world refl (refl, tt)

upload-Kept_example :
    Kept orphan_world.objects (upload_frame library request around orphan_world).1.objects
upload-Kept_example = upload-Kept library request around orphan_world

upload-InBounds_example :
    All InBounds (upload_frame library request around (world_in capturing)).1.db.frames
upload-InBounds_example = upload-InBounds library request around (world_in capturing) tt

abbrev job : Job
job = record {
  now = 60;
  frame_id = λ n. 20;
  head_fails = λ n. false;
  get_outage = λ n. none;
  split = λ key. "sessions" ∷ "s1" ∷ "frames" ∷ "cap-1" ∷ "0.jpg" ∷ [];
  file_index = λ file. some 0;
}

reconcile-keeps_example :
    let out = reconcile library job 200 orphan_world in
    (out.1.objects ≡ orphan_world.objects)
    × Unique out.1
    × Counted out.1
    × (total out.0 ≡ length (take 200 (select unresolved orphan_world.db.orphans)))
reconcile-keeps_example = reconcile-keeps library job 200 orphan_world orphan_counts (refl, tt)
