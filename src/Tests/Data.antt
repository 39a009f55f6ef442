-- ===== src/Tests/Data.antt =====
-- A device, a gateway and a session of theirs, with rows of every table.
use pages_to_rgb.Prelude.{ℕ, String, none, some, [], ◌∷◌, true}
use pages_to_rgb.Session.State.{SessionState}
use pages_to_rgb.Rgb.Schemas.{
  letter_a, letter_b, Rgb, RgbDefaults, Palette, RgbOverride, RgbSequencePayload, RgbSequenceStatus,
  result_processing,
}
use pages_to_rgb.Rgb.Commands.Status.{TestRequest}
use pages_to_rgb.Rgb.Delivery.Binding.{SessionBinding}
use pages_to_rgb.Db.{Db, Session, Device, Gateway, Delivery, Sequence}

abbrev pub uuid_text : ℕ → String
uuid_text n = "id"

abbrev pub session_in : SessionState → Session
session_in state = record {
  id = 1;
  public_id = "s1";
  device_id = 2;
  gateway_id = 3;
  status = some state;
  expected_questions = 2;
  minimum_ratio = 900;
  processing_started_at = none;
  capture_locked_at = none;
  end_reason = none;
  config_snapshot = none;
  provider_snapshot = none;
  session_type = "EXAM";
  capture_source = "ANDROID_CAMERA";
  camera_profile_revision_id = none;
  camera_profile_snapshot_json = none;
  requested_camera_config_json = none;
  effective_camera_config_json = none;
  firmware_version = none;
  capabilities_version = none;
  updated_at = 0;
}

abbrev pub device : Device
device = record {
  id = 2;
  device_code = "esp";
  enabled = true;
  firmware_version = none;
  metadata = none;
}

abbrev pub gateway : Gateway
gateway = record { id = 3; gateway_code = "gw"; enabled = true }

abbrev pub delivery : Delivery
delivery = record {
  session_id = 1;
  device_id = 2;
  gateway_id = 3;
  command = result_processing;
  cursor = 4;
  active_sequence_id = none;
  reason_code = none;
  updated_at = 0;
}

abbrev pub white : Rgb
white = record { r = 255; g = 255; b = 255 }

abbrev pub defaults : RgbDefaults
defaults = record { brightness_percent = 12; on_ms = 3000; off_ms = 5000 }

abbrev pub palette : Palette
palette l = white

abbrev pub override : RgbOverride
override = record {
  index = 1;
  rgb = none;
  brightness_percent = some 50;
  on_ms = none;
  off_ms = none;
}

abbrev pub payload : RgbSequencePayload
payload = record {
  schema_version = 1;
  session_id = "s1";
  sequence_id = "rgb-1";
  revision = 1;
  item_count = 2;
  sha256 = "";
  answers = letter_a ∷ letter_b ∷ [];
  defaults = defaults;
  palette = palette;
  overrides = override ∷ [];
}

abbrev pub sequence : Sequence
sequence = record {
  id = 5;
  sequence_id = "rgb-1";
  session_id = 1;
  revision = 1;
  schema_version = 1;
  status = RgbSequenceStatus.ready;
  answers = letter_a ∷ letter_b ∷ [];
  item_count = 2;
  defaults = defaults;
  palette = palette;
  overrides = [];
  payload_sha256 = "";
  payload_size = 26;
  last_next_index = 0;
  ready_at = none;
  completed_at = none;
}

abbrev pub empty_db : Db
empty_db = record {
  sessions = [];
  devices = device ∷ [];
  gateways = gateway ∷ [];
  deliveries = [];
  sequences = [];
  sequence_events = [];
  commands = [];
  command_events = [];
  gateway_commands = [];
  audit = [];
  captures = [];
  frames = [];
  artifacts = [];
  orphans = [];
  outbox = [];
  camera_profiles = [];
  diagnostics = [];
  diagnostic_frames = [];
  questions = [];
  final_answers = [];
  admin_settings = none;
}

abbrev pub db_in : SessionState → Db
db_in state = record empty_db {
  sessions = session_in state ∷ [];
  deliveries = delivery ∷ [];
  sequences = sequence ∷ [];
}

abbrev pub binding_in : SessionState → SessionBinding
binding_in state = record { session = session_in state; device = device; gateway = gateway }

abbrev pub test_request : TestRequest
test_request = record {
  session_id = none;
  rgb = white;
  brightness_percent = 12;
  on_ms = 500;
  off_ms = 500;
  repeat_count = 2;
}
