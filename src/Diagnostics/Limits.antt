-- ===== src/Diagnostics/Limits.antt =====
-- camera_diagnostics/__init__.py: the limits of the modes, the profiles and the keys. `upper` is
-- Python's `str.upper`, `padded` formats a number with four digits.
use pages_to_rgb.Prelude.{
  ℕ, String, Bool, true, false, ◌&&◌, ◌||◌, Option, none, some, leb, str_eq, ◌<>◌, if◌then◌else◌,
}
use pages_to_rgb.Common.Value.{num, text, Fields, end, field}
use pages_to_rgb.Common.Exec.{Result, ok, err, value_error}
use pages_to_rgb.Db.{
  DiagnosticMode, photo, clip, preview, DiagnosticStatus, completed, failed, expired,
}

pub record Limits : Type 0 where
  pub duration_limit_s : ℕ
  pub bytes_limit : ℕ
  pub max_frames : ℕ

unfoldable pub limits_for_mode : DiagnosticMode → Limits
limits_for_mode photo = record { duration_limit_s = 30; bytes_limit = 2097152; max_frames = 1 }
limits_for_mode clip = record { duration_limit_s = 10; bytes_limit = 20971520; max_frames = 60 }
limits_for_mode preview = record { duration_limit_s = 60; bytes_limit = 20971520; max_frames = 120 }

unfoldable pub mode_of : String → Option DiagnosticMode
mode_of mode =
    if str_eq mode "PHOTO"
    then some photo
    else if str_eq mode "CLIP"
    then some clip
    else if str_eq mode "PREVIEW"
    then some preview
    else none

-- `TERMINAL_STATUSES`
unfoldable pub is_terminal_status : DiagnosticStatus → Bool
is_terminal_status completed = true
is_terminal_status failed = true
is_terminal_status expired = true
is_terminal_status _ = false

unfoldable pub valid_resolution : String → Bool
valid_resolution r =
    str_eq r "QVGA"
    || str_eq r "VGA"
    || str_eq r "SVGA"
    || str_eq r "XGA"
    || str_eq r "SXGA"
    || str_eq r "UXGA"

or_svga : Option String → String
or_svga none = "SVGA"
or_svga (some r) = if str_eq r "" then "SVGA" else r

or_eighteen : Option ℕ → ℕ
or_eighteen none = 18
or_eighteen (some q) = q

unfoldable pub validate_profile : (String → String) → Option String → Option ℕ → Result Fields
unfolding valid_resolution or_svga or_eighteen
validate_profile upper resolution jpeg_quality =
    let res = upper (or_svga resolution) in
    let q = or_eighteen jpeg_quality in
    if valid_resolution res
    then (if leb 5 q && leb q 40
        then ok (field "resolution" (text res) (field "jpeg_quality" (num q) end))
        else err value_error)
    else err value_error

-- The key of a frame: a transient one has the key of the latest preview.
unfoldable pub frame_key_of : (ℕ → String) → Bool → DiagnosticMode → String → String → ℕ → String
frame_key_of padded true mode device_code diagnostic_id frame_index =
    "diagnostics/" <> device_code <> "/" <> diagnostic_id <> "/preview_latest.jpg"
frame_key_of padded false clip device_code diagnostic_id frame_index =
    "diagnostics/"
    <> device_code
    <> "/"
    <> diagnostic_id
    <> "/clip_"
    <> padded frame_index
    <> ".jpg"
frame_key_of padded false _ device_code diagnostic_id frame_index =
    "diagnostics/"
    <> device_code
    <> "/"
    <> diagnostic_id
    <> "/photo_"
    <> padded frame_index
    <> ".jpg"
