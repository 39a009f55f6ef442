-- ===== src/Tests/Diagnostics.antt =====
-- The diagnostics of a camera on sample data.
use pages_to_rgb.Prelude.{ℕ, String, pos, ◌≡◌, refl, true, false, none, some, [], ◌∷◌, arith, All}
use pages_to_rgb.Common.Exec.{ok}
use pages_to_rgb.Capture.Storage.{put_object}
use pages_to_rgb.Capture.Upload.Flow.{World}
use pages_to_rgb.Capture.Upload.Request.{validate_mime, validate_image_content, check_hash}
use pages_to_rgb.Diagnostics.Lifecycle.{DiagnosticRequest, create_diagnostic}
use pages_to_rgb.Diagnostics.Exclusive.{Exclusive}
use pages_to_rgb.Diagnostics.Exclusive.Steps.{created, step-Exclusive}
use pages_to_rgb.Diagnostics.Frames.{
  FrameRequest, Moment, frame_row, ingest_frame, identity, over_frames, put_frame,
}
use pages_to_rgb.Diagnostics.Frames.Quota.{WithinQuota, ingest_frame-WithinQuota}
use pages_to_rgb.Diagnostics.Frames.Retry.{retry_is_duplicate}
use pages_to_rgb.Diagnostics.Frames.Pointer.{PointsTo, stored_frame_is_last}
use pages_to_rgb.Db.{
  Db, CameraDiagnostic, CameraDiagnosticFrame, clip, active, expired, pages_derived,
}
use pages_to_rgb.Tests.Data.{empty_db}
use pages_to_rgb.Tests.Uploads.{library, jpeg}

abbrev diagnostic : CameraDiagnostic
diagnostic = record {
  id = 7;
  diagnostic_id = "dg_1";
  device_id = 2;
  gateway_id = none;
  mode = clip;
  status = active;
  requested_profile = none;
  effective_profile = none;
  origin = "ESP32_CAMERA";
  duration_limit_s = 10;
  bytes_limit = 20;
  max_frames = 60;
  received_frames = 1;
  received_bytes = 9;
  last_frame_index = some 5;
  last_frame_sha256 = some "other";
  last_frame_key = none;
  last_frame_at = none;
  last_sequence = 1;
  reason = none;
  expires_at = 100;
  completed_at = none;
  created_by = none;
}

abbrev before : World
before = record { db = record empty_db { diagnostics = diagnostic ∷ [] }; objects = [] }

-- A frame that comes after the frame with the index 5.
abbrev late : FrameRequest
late = record {
  diagnostic = 7;
  bucket = pages_derived;
  device_code = "esp";
  frame_index = pos 3;
  declared_sha256 = "digest";
  bytes = jpeg;
  captured_mono_ms = none;
  transient = false;
}

abbrev moment : Moment
moment = record { id = 9; now = 50; outage = none }

abbrev later : Moment
later = record { id = 10; now = 60; outage = some "STORAGE_UNAVAILABLE" }

abbrev four : ℕ → String
four n = "0003"

abbrev late_frame : CameraDiagnosticFrame
late_frame =
    frame_row library four late moment diagnostic
      (record { width = 1600; height = 1200; sha256 = "digest" }) 3

late_frame_stored : (ingest_frame library four late moment before).0 ≡ ok (late_frame, false)
unfolding ingest_frame identity validate_mime validate_image_content check_hash over_frames
    put_frame put_object
late_frame_stored = refl

retry_is_duplicate_example :
    ingest_frame library four late later (ingest_frame library four late moment before).1
    ≡ (ok (late_frame, true), (ingest_frame library four late moment before).1)
retry_is_duplicate_example =
    retry_is_duplicate library four late moment later before late_frame late_frame_stored

stored_frame_is_last_example :
    (pos 3 ≡ pos late_frame.frame_index)
    × PointsTo library four late moment before late_frame
        (ingest_frame library four late moment before).1
stored_frame_is_last_example =
    stored_frame_is_last library four late moment before late_frame late_frame_stored

quota_held : All WithinQuota before.db.diagnostics
quota_held = (omega arith, tt)

ingest_frame-WithinQuota_example :
    All WithinQuota (ingest_frame library four late moment before).1.db.diagnostics
ingest_frame-WithinQuota_example =
    ingest_frame-WithinQuota library four late moment before quota_held

abbrev ended : CameraDiagnostic
ended = record diagnostic { status = expired }

abbrev ended_db : Db
ended_db = record empty_db { diagnostics = ended ∷ [] }

abbrev photo_request : DiagnosticRequest
photo_request = record {
  device_code = "esp";
  mode = "PHOTO";
  resolution = none;
  jpeg_quality = none;
  duration_s = none;
  created_by = none;
}

ended-Exclusive : Exclusive (ended ∷ [])
ended-Exclusive = record { unique = λ n. ground arith; one_live = λ d. ground arith }

abbrev created_db : Db
created_db = (create_diagnostic (λ s. s) (λ s. true) 8 "dg_2" 50 photo_request true ended_db).1

step-Exclusive_example : Exclusive created_db.diagnostics
step-Exclusive_example =
    step-Exclusive ended_db created_db
      (created (λ s. s) (λ s. true) 8 "dg_2" 50 photo_request true ended_db refl) ended-Exclusive
