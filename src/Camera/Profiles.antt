-- ===== src/Camera/Profiles.antt =====
-- camera_profiles/service.py: the revisions of the camera profiles. The advisory lock of a scope makes
-- the calls for one scope one after the other.
use pages_to_rgb.Prelude.{
  ℕ, String, Bool, true, false, not, ◌&&◌, ◌||◌, Option, none, some, List, [], ◌∷◌, ◌++◌, find?,
  update, ltb, ◌==◌, ◌+◌, str_eq, if◌then◌else◌,
}
use pages_to_rgb.Common.Value.{Value, null, num, text, Fields, end, field, get}
use pages_to_rgb.Common.Exec.{Exec, Result, ok, err, app_error}
use pages_to_rgb.Camera.Contract.{
  RequestedValues, normalize_camera_mode, mode_name, default_profile_values,
  requested_profile_values,
}
use pages_to_rgb.Db.{
  Db, Device, CameraMode, ocr, photo, ProfileValues, CameraProfileRevision, AuditEvent, add_audit,
}

is_v2 : Option Value → Bool
is_v2 (some (text s)) = str_eq s "v2"
is_v2 _ = false

metadata_of : Option Device → Fields
metadata_of none = end
metadata_of (some d) = elim d.metadata [ none ↦ end | some fs ↦ fs ]

advertises : Option String → Bool
advertises none = false
advertises (some v) = str_eq v "v2"

unfoldable pub device_supports_v2 : Option Device → Option String → Bool
unfolding is_v2 metadata_of advertises
device_supports_v2 device advertised =
    advertises advertised
    || is_v2 (get "camera_capabilities_version" (metadata_of device))
    || is_v2 (get "capabilities_version" (metadata_of device))

unfoldable pub require_v2_enabled :
    {A : Type 0} → Bool → Option Device → Option String → Result A → Result A
require_v2_enabled enabled device advertised next =
    if not enabled
    then err (app_error "CAMERA_CONTRACT_V2_DISABLED" 409)
    else if not (device_supports_v2 device advertised)
    then err (app_error "FIRMWARE_CAPABILITY_V2_REQUIRED" 409)
    else next

abbrev pub same_mode : CameraMode → CameraMode → Bool
same_mode ocr ocr = true
same_mode photo photo = true
same_mode _ _ = false

abbrev pub same_device : Option ℕ → Option ℕ → Bool
same_device none none = true
same_device (some a) (some b) = a == b
same_device _ _ = false

-- The revisions of a mode, of one device or of all (`none`).
abbrev pub in_scope : CameraMode → Option ℕ → CameraProfileRevision → Bool
in_scope mode device_id row = same_mode row.mode mode && same_device row.device_id device_id

abbrev pub in_force : CameraMode → Option ℕ → CameraProfileRevision → Bool
in_force mode device_id row = in_scope mode device_id row && row.active

unfoldable pub later : CameraProfileRevision → Option CameraProfileRevision → CameraProfileRevision
later row none = row
later row (some other) = if ltb row.revision other.revision then other else row

-- `ORDER BY revision DESC`, first row.
unfoldable pub latest :
    (CameraProfileRevision → Bool) → List CameraProfileRevision → Option CameraProfileRevision
latest p [] = none
latest p (row ∷ rows) = let rest = latest p rows in if p row then some (later row rest) else rest

unfoldable pub active_profile : CameraMode → Option ℕ → Db → Option CameraProfileRevision
active_profile mode device_id db = latest (in_force mode device_id) db.camera_profiles

unfoldable pub next_revision : Option CameraProfileRevision → ℕ
next_revision none = 1
next_revision (some row) = row.revision + 1

unfoldable pub supersede :
    ℕ → Option CameraProfileRevision → List CameraProfileRevision → List CameraProfileRevision
supersede now none rows = rows
supersede now (some l) rows =
    if l.active
    then update (λ (row : CameraProfileRevision). row.id == l.id)
        (λ row. record row { active = false; superseded_at = some now }) rows
    else rows

pub record ProfileRequest : Type 0 where
  pub mode : String
  pub device_code : Option String
  pub values : RequestedValues

created_event : (ℕ → String) → CameraProfileRevision → String → Option String → AuditEvent
created_event uuid_text row actor device_code = record {
  session_id = none;
  event_type = "CAMERA_PROFILE_CREATED";
  stage = "CONFIG";
  severity = "INFO";
  reason_code = none;
  actor_type = if str_eq actor "admin" then "admin" else "gateway";
  payload = field "profile_public_id" (text (uuid_text row.id)) (
      field "mode" (text (mode_name row.mode)) (
        field "revision" (num row.revision) (
          field "device_code" (elim device_code [ none ↦ null | some c ↦ text c ])
            (field "capabilities_version" (text "v2") end))));
}

unfoldable pub new_revision :
    ℕ
    → Option ℕ
    → CameraMode
    → ProfileValues
    → String
    → Option CameraProfileRevision
    → CameraProfileRevision
unfolding next_revision
new_revision id device_id mode values actor latest = record {
  id = id;
  device_id = device_id;
  mode = mode;
  revision = next_revision latest;
  values = values;
  capabilities_version = "v2";
  created_by = actor;
  active = true;
  superseded_at = none;
}

-- `uuid_text` is the text of the public id of a row.
module _ (uuid_text : ℕ → String) (id now : ℕ) (actor : String) where
  unfoldable pub create_in_scope :
      CameraMode → Option ℕ → ProfileValues → Option String → Exec Db CameraProfileRevision
  unfolding created_event
  create_in_scope mode device_id values device_code db =
      let last = latest (in_scope mode device_id) db.camera_profiles in
      let row = new_revision id device_id mode values actor last in
      (
        ok row,
        add_audit (created_event uuid_text row actor device_code)
            (record db { camera_profiles = supersede now last db.camera_profiles ++ row ∷ [] }),
      )

  -- `find_device`; an empty code is no code.
  unfoldable pub for_device :
      CameraMode → ProfileValues → Option String → Exec Db CameraProfileRevision
  for_device mode values none db = create_in_scope mode none values none db
  for_device mode values (some code) db =
      if str_eq code ""
      then create_in_scope mode none values (some code) db
      else elim (find? (λ (d : Device). str_eq d.device_code code) db.devices) [
        | none ↦ (err (app_error "DEVICE_NOT_FOUND" 404), db)
        | some d ↦ create_in_scope mode (some d.id) values (some code) db
      ]

  for_mode : Bool → Bool → ProfileRequest → Result CameraMode → Exec Db CameraProfileRevision
  unfolding for_device
  for_mode enabled require_feature body (err e) db = (err e, db)
  for_mode enabled require_feature body (ok mode) db =
      if require_feature && not enabled
      then (err (app_error "CAMERA_CONTRACT_V2_DISABLED" 409), db)
      else for_device mode (requested_profile_values body.values mode) body.device_code db

  unfoldable pub create_profile :
      (String → String) → Bool → Bool → ProfileRequest → Exec Db CameraProfileRevision
  unfolding for_mode
  create_profile normalize enabled require_feature body db =
      for_mode enabled require_feature body (normalize_camera_mode normalize body.mode) db

  -- The request of `DefaultProfileRequest` holds the default values of its mode.
  unfoldable pub ensure_from :
      Bool → CameraMode → Option CameraProfileRevision → Exec Db CameraProfileRevision
  ensure_from enabled mode (some row) db = (ok row, db)
  ensure_from enabled mode none db =
      if not enabled
      then (err (app_error "CAMERA_CONTRACT_V2_DISABLED" 409), db)
      else create_in_scope mode none (default_profile_values mode) none db

  unfoldable pub ensure_default_profile : Bool → CameraMode → Exec Db CameraProfileRevision
  unfolding ensure_from
  ensure_default_profile enabled mode db = ensure_from enabled mode (active_profile mode none db) db
