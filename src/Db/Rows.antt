-- ===== src/Db/Rows.antt =====
-- The rows of the tables that the modelled services read and write (db/models/). A UUID or an
-- autoincrement key is a number, an instant is a number of microseconds, and a text column with a
-- CHECK constraint is the data type of its values.
use pages_to_rgb.Prelude.{ℕ, ℤ, String, Bool, Option, List}
use pages_to_rgb.Common.Value.{Value, Fields}
use pages_to_rgb.Session.State.{SessionState}
use pages_to_rgb.Rgb.Schemas.{
  AnswerLetter, RgbResultCommand, RgbEventName, RgbSequenceStatus, Rgb, RgbDefaults, RgbOverride,
  Palette,
}

-- `status` is `none` where the column holds a text that is no `SessionState`; `minimum_ratio`, a
-- `Numeric(4, 3)`, is in thousandths.
pub record Session : Type 0 where
  pub id : ℕ
  pub public_id : String
  pub device_id : ℕ
  pub gateway_id : ℕ
  pub status : Option SessionState
  pub expected_questions : ℕ
  pub minimum_ratio : ℕ
  pub processing_started_at : Option ℕ
  pub capture_locked_at : Option ℕ
  pub end_reason : Option String
  pub config_snapshot : Option Fields
  pub provider_snapshot : Option Fields
  pub session_type : String
  pub capture_source : String
  pub camera_profile_revision_id : Option ℕ
  pub camera_profile_snapshot_json : Option Fields
  pub requested_camera_config_json : Option Fields
  pub effective_camera_config_json : Option Fields
  pub firmware_version : Option String
  pub capabilities_version : Option String
  pub updated_at : ℕ

pub record Device : Type 0 where
  pub id : ℕ
  pub device_code : String
  pub enabled : Bool
  pub firmware_version : Option String
  pub metadata : Option Fields

pub record Gateway : Type 0 where
  pub id : ℕ
  pub gateway_code : String
  pub enabled : Bool

pub record Delivery : Type 0 where
  pub session_id : ℕ
  pub device_id : ℕ
  pub gateway_id : ℕ
  pub command : RgbResultCommand
  pub cursor : ℕ
  pub active_sequence_id : Option ℕ
  pub reason_code : Option String
  pub updated_at : ℕ

pub record Sequence : Type 0 where
  pub id : ℕ
  pub sequence_id : String
  pub session_id : ℕ
  pub revision : ℕ
  pub schema_version : ℕ
  pub status : RgbSequenceStatus
  pub answers : List AnswerLetter
  pub item_count : ℕ
  pub defaults : RgbDefaults
  pub palette : Palette
  pub overrides : List RgbOverride
  pub payload_sha256 : String
  pub payload_size : ℕ
  pub last_next_index : ℕ
  pub ready_at : Option ℕ
  pub completed_at : Option ℕ

-- The parts of the text `event_identity`, which `_event_identity` joins by colons.
pub record EventIdentity : Type 0 where
  pub device_id : ℕ
  pub sequence_id : ℕ
  pub revision : ℕ
  pub event : RgbEventName
  pub suffix : Option ℕ

pub record SequenceEvent : Type 0 where
  pub rgb_sequence_id : ℕ
  pub device_id : ℕ
  pub gateway_id : ℕ
  pub event : RgbEventName
  pub next_index : ℕ
  pub item_count : ℕ
  pub idempotency_key : Option String
  pub event_identity : EventIdentity
  pub payload : Fields

pub data CommandStatus : Type 0 where
  queued forwarded received applied off expired failed cancelled : CommandStatus

-- The literal `EVENTS` of rgb/device_commands.py.
pub data CommandEventName : Type 0 where
  forwarded received applied off failed expired cancelled : CommandEventName

pub data CommandKind : Type 0 where
  test stop : CommandKind

pub record Command : Type 0 where
  pub command_id : ℕ
  pub device_id : ℕ
  pub session_id : Option ℕ
  pub kind : CommandKind
  pub rgb : Rgb
  pub brightness_percent : ℕ
  pub on_ms : ℕ
  pub off_ms : ℕ
  pub repeat_count : ℕ
  pub status : CommandStatus
  pub queued_at : ℕ
  pub forwarded_at : Option ℕ
  pub received_at : Option ℕ
  pub applied_at : Option ℕ
  pub off_at : Option ℕ
  pub expired_at : Option ℕ
  pub failed_at : Option ℕ
  pub cancelled_at : Option ℕ
  pub attempt_count : ℕ
  pub failure_reason : Option String
  pub expires_at : ℕ
  pub created_by : Option String

pub record CommandEvent : Type 0 where
  pub command_id : ℕ
  pub device_id : ℕ
  pub event_type : CommandEventName
  pub requested_payload : Fields
  pub effective_payload : Fields
  pub payload : Fields
  pub firmware_version : Option String
  pub device_timestamp : Option ℕ
  pub error : Option String
  pub idempotency_key : String

pub record GatewayCommand : Type 0 where
  pub session_id : ℕ
  pub cursor : ℕ
  pub command : String
  pub payload : Option Fields
  pub acked : Bool
  pub ack_at : Option ℕ
  pub attempts : ℕ

pub record AuditEvent : Type 0 where
  pub session_id : Option ℕ
  pub event_type : String
  pub stage : String
  pub severity : String
  pub reason_code : Option String
  pub actor_type : String
  pub payload : Fields

-- A setting that comes from a camera configuration is the JSON value that stands there.
pub record Capture : Type 0 where
  pub id : ℕ
  pub session_id : ℕ
  pub capture_id : String
  pub mode : String
  pub command_cursor : ℕ
  pub requested_frames : ℕ
  pub received_frames : ℕ
  pub status : String
  pub capture_source : String
  pub session_type : String
  pub camera_profile_revision_id : Option ℕ
  pub camera_profile_snapshot_json : Option Fields
  pub requested_camera_config_json : Option Fields
  pub effective_camera_config_json : Option Fields
  pub firmware_version : Option String
  pub capabilities_version : Option String
  pub page_number : Option ℕ
  pub requested_resolution : Option Value
  pub effective_resolution : Option Value
  pub requested_esp_jpeg_quality : Option Value
  pub effective_esp_jpeg_quality : Option Value
  pub configured_buffer_bytes : Option Value
  pub dma_enabled : Option Value
  pub expected_frames : Option Value
  pub completed_at : Option ℕ

pub record Frame : Type 0 where
  pub id : ℕ
  pub session_id : ℕ
  pub capture_id : ℕ
  pub frame_index : ℕ
  pub sha256 : String
  pub content_length : ℕ
  pub mime_type : String
  pub width : Option ℕ
  pub height : Option ℕ
  pub storage_key : String
  pub received_android_at : Option ℕ
  pub capture_source : String
  pub android_orientation : Option ℤ
  pub source_resolution : Option String
  pub page_number : Option ℕ
  pub frame_number : Option ℕ
  pub requested_resolution : Option Value
  pub effective_resolution : Option Value
  pub requested_esp_jpeg_quality : Option Value
  pub effective_esp_jpeg_quality : Option Value
  pub configured_buffer_bytes : Option Value
  pub dma_enabled : Option Value
  pub firmware_version : Option String
  pub jpeg_size_bytes : Option ℕ
  pub jpeg_valid : Option Bool
  pub storage_key_original : Option String
  pub upload_duration_ms : Option ℕ
  pub confirmed_at : Option ℕ
  pub status : String

pub record ImageArtifact : Type 0 where
  pub session_id : ℕ
  pub frame_id : ℕ
  pub artifact_type : String
  pub storage_key : String
  pub sha256 : String
  pub metadata : Fields

pub data Bucket : Type 0 where
  pages_originals pages_derived : Bucket

pub record StorageOrphan : Type 0 where
  pub id : ℕ
  pub bucket : Bucket
  pub key : String
  pub sha256 : String
  pub session_id : ℕ
  pub resolved_at : Option ℕ
  pub resolution : Option String

pub data OutboxStatus : Type 0 where
  pending dispatched failed : OutboxStatus

pub record WorkflowOutbox : Type 0 where
  pub session_id : ℕ
  pub workflow_id : String
  pub status : OutboxStatus
  pub attempts : ℕ
  pub last_error : Option String
  pub dispatched_at : Option ℕ

pub data CameraMode : Type 0 where
  ocr photo : CameraMode

-- The settings of a camera profile, one column each.
pub record ProfileValues : Type 0 where
  pub frame_size : String
  pub esp_jpeg_quality : ℕ
  pub frame_count : ℕ
  pub intra_frame_gap_ms : ℕ
  pub page_interval_ms : ℕ
  pub brightness : ℤ
  pub contrast : ℤ
  pub saturation : ℤ
  pub awb : Bool
  pub awb_gain : Bool
  pub wb_mode : String
  pub aec : Bool
  pub aec2 : Bool
  pub agc : Bool
  pub bpc : Bool
  pub wpc : Bool
  pub raw_gamma : Bool
  pub lens_correction : Bool
  pub dcw : Bool
  pub hmirror : Bool
  pub vflip : Bool
  pub special_effect : String
  pub colorbar : Bool
  pub technical_config : Fields

pub record CameraProfileRevision : Type 0 where
  pub id : ℕ
  pub device_id : Option ℕ
  pub mode : CameraMode
  pub revision : ℕ
  pub values : ProfileValues
  pub capabilities_version : String
  pub created_by : String
  pub active : Bool
  pub superseded_at : Option ℕ

pub data DiagnosticMode : Type 0 where
  photo clip preview : DiagnosticMode

pub data DiagnosticStatus : Type 0 where
  requested active stopping completed failed expired : DiagnosticStatus

pub record CameraDiagnostic : Type 0 where
  pub id : ℕ
  pub diagnostic_id : String
  pub device_id : ℕ
  pub gateway_id : Option ℕ
  pub mode : DiagnosticMode
  pub status : DiagnosticStatus
  pub requested_profile : Option Fields
  pub effective_profile : Option Fields
  pub origin : String
  pub duration_limit_s : ℕ
  pub bytes_limit : ℕ
  pub max_frames : ℕ
  pub received_frames : ℕ
  pub received_bytes : ℕ
  pub last_frame_index : Option ℕ
  pub last_frame_sha256 : Option String
  pub last_frame_key : Option String
  pub last_frame_at : Option ℕ
  pub last_sequence : ℕ
  pub reason : Option String
  pub expires_at : ℕ
  pub completed_at : Option ℕ
  pub created_by : Option String

pub record CameraDiagnosticFrame : Type 0 where
  pub id : ℕ
  pub diagnostic_id : ℕ
  pub frame_index : ℕ
  pub sequence : ℕ
  pub sha256 : String
  pub storage_key : String
  pub bytes : ℕ
  pub width : Option ℕ
  pub height : Option ℕ
  pub captured_mono_ms : Option ℕ
  pub received_at : ℕ
  pub transient : Bool

pub record Question : Type 0 where
  pub id : ℕ
  pub session_id : ℕ
  pub question_number : ℕ
  pub status : String

pub record FinalAnswer : Type 0 where
  pub question_id : ℕ
  pub answer : Option String
  pub validated : Bool

-- The columns that name the providers, and their secrets as they are stored.
pub record AdminSettings : Type 0 where
  pub ocr_provider : String
  pub solve_model : String
  pub verify_model : String
  pub arbiter_model : String
  pub gemini_api_key_encrypted : Option String
  pub google_document_ai_project_id : Option String
  pub google_document_ai_location : String
  pub google_document_ai_processor_id : Option String
  pub google_document_ai_processor_version : Option String
  pub google_document_ai_credentials_encrypted : Option String
