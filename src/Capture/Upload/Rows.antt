-- ===== src/Capture/Upload/Rows.antt =====
-- capture/frame_upload.py: what an upload takes from the camera configurations of its session, and
-- the rows that it makes.
use pages_to_rgb.Prelude.{
  ℕ, String, Bool, true, ◌&&◌, ◌||◌, Option, none, some, length, ◌==◌, str_eq, if◌then◌else◌,
}
use pages_to_rgb.Common.Value.{Value, text, obj, Fields, end, get, truthy}
use pages_to_rgb.Capture.Upload.Request.{FrameUploadRequest, Checked}
use pages_to_rgb.Db.{Session, Capture, Frame}

-- `value or d`
abbrev or_value : Option Value → Option Value → Option Value
or_value none d = d
or_value (some v) d = if truthy v then some v else d

unfoldable pub or_empty : Option Fields → Fields
or_empty none = end
or_empty (some fs) = fs

-- `fs or None`
or_none : Fields → Option Fields
or_none end = none
or_none fs = some fs

-- A value that `.get` can be called on; any other raises.
unfoldable pub as_fields : Option Value → Option Fields
as_fields none = some end
as_fields (some (obj fs)) = some fs
as_fields (some _) = none

-- A key whose value is the JSON `null` is as good as absent.
unfoldable pub technical_config : Fields → Fields → Option Fields
unfolding as_fields
technical_config requested effective =
    as_fields (
      or_value (get "technical_config" effective)
        (or_value (get "technical_config" requested) none))

abbrev optional_text : Option String → Option Value
optional_text none = none
optional_text (some s) = some (text s)

-- The settings of the camera, by the configurations of the session.
pub record CameraSettings : Type 0 where
  pub requested_config : Fields
  pub effective_config : Fields
  pub requested_resolution : Option Value
  pub effective_resolution : Option Value
  pub requested_quality : Option Value
  pub effective_quality : Option Value
  pub expected_frames : Option Value
  pub configured_buffer : Option Value
  pub dma_enabled : Option Value

unfoldable pub settings_from : Fields → Fields → Option String → Fields → CameraSettings
settings_from requested effective source_resolution technical =
    let resolution = or_value (get "frame_size" requested) (optional_text source_resolution) in
    record {
      requested_config = requested;
      effective_config = effective;
      requested_resolution = resolution;
      effective_resolution = or_value (get "frame_size" effective) resolution;
      requested_quality = get "esp_jpeg_quality" requested;
      effective_quality = get "esp_jpeg_quality" effective;
      expected_frames = get "frame_count" requested;
      configured_buffer = get "buffer_bytes" technical;
      dma_enabled = get "dma_enabled" technical;
    }

unfoldable pub with_technical :
    Fields → Fields → Option String → Option Fields → Option CameraSettings
with_technical requested effective source_resolution none = none
with_technical requested effective source_resolution (some technical) =
    some (settings_from requested effective source_resolution technical)

-- `none` where a `technical_config` is no object.
unfoldable pub camera_settings : Session → Option String → Option CameraSettings
unfolding or_empty technical_config with_technical settings_from
camera_settings session source_resolution =
    let requested = or_empty session.requested_camera_config_json in
    let effective = or_empty session.effective_camera_config_json in
    with_technical requested effective source_resolution (technical_config requested effective)

capture_source_of : String → String
capture_source_of source =
    if str_eq source "ANDROID_CAMERA" || str_eq source "ESP32_CAMERA"
    then source
    else "ANDROID_CAMERA"

unfoldable pub or_exam : String → String
or_exam session_type = if str_eq session_type "" then "EXAM" else session_type

abbrev pub capture_key : ℕ → String → Capture → Bool
capture_key session_id capture_id c = c.session_id == session_id && str_eq c.capture_id capture_id

abbrev pub frame_slot : ℕ → ℕ → Frame → Bool
frame_slot capture_id frame_index f = f.capture_id == capture_id && f.frame_index == frame_index

unfoldable pub new_capture : ℕ → Session → FrameUploadRequest → Checked → CameraSettings → Capture
unfolding or_none or_exam capture_source_of
new_capture id session request checked camera = record {
  id = id;
  session_id = session.id;
  capture_id = request.capture_id;
  mode = "full";
  command_cursor = 0;
  requested_frames = 0;
  received_frames = 0;
  status = "open";
  capture_source = capture_source_of request.capture_source;
  session_type = or_exam session.session_type;
  camera_profile_revision_id = session.camera_profile_revision_id;
  camera_profile_snapshot_json = session.camera_profile_snapshot_json;
  requested_camera_config_json = or_none camera.requested_config;
  effective_camera_config_json = or_none camera.effective_config;
  firmware_version = session.firmware_version;
  capabilities_version = session.capabilities_version;
  page_number = checked.page_number;
  requested_resolution = camera.requested_resolution;
  effective_resolution = camera.effective_resolution;
  requested_esp_jpeg_quality = camera.requested_quality;
  effective_esp_jpeg_quality = camera.effective_quality;
  configured_buffer_bytes = camera.configured_buffer;
  dma_enabled = camera.dma_enabled;
  expected_frames = camera.expected_frames;
  completed_at = none;
}

or_index : Option ℕ → ℕ → ℕ
or_index none index = index
or_index (some n) index = n

-- `times` are the row's `received_android_at`, `upload_duration_ms` and `confirmed_at`.
unfoldable pub new_frame :
    ℕ
    → Session
    → ℕ
    → FrameUploadRequest
    → Checked
    → CameraSettings
    → String
    → Option ℕ × ℕ × ℕ
    → Frame
unfolding or_index capture_source_of
new_frame id session capture_id request checked camera storage_key times = record {
  id = id;
  session_id = session.id;
  capture_id = capture_id;
  frame_index = checked.frame_index;
  sha256 = checked.sha256;
  content_length = length request.bytes;
  mime_type = request.mime_type;
  width = some checked.width;
  height = some checked.height;
  storage_key = storage_key;
  received_android_at = times.0;
  capture_source = capture_source_of request.capture_source;
  android_orientation = request.android_orientation;
  source_resolution = request.source_resolution;
  page_number = checked.page_number;
  frame_number = some (or_index checked.frame_number checked.frame_index);
  requested_resolution = camera.requested_resolution;
  effective_resolution = camera.effective_resolution;
  requested_esp_jpeg_quality = camera.requested_quality;
  effective_esp_jpeg_quality = camera.effective_quality;
  configured_buffer_bytes = camera.configured_buffer;
  dma_enabled = camera.dma_enabled;
  firmware_version = session.firmware_version;
  jpeg_size_bytes = some (length request.bytes);
  jpeg_valid = some true;
  storage_key_original = some storage_key;
  upload_duration_ms = some times.1;
  confirmed_at = some times.2;
  status = "accepted";
}
