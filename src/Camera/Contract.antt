-- ===== src/Camera/Contract.antt =====
-- camera_profiles/contract.py: the modes, their default settings, and the settings of a request.
-- `normalize` is Python's `strip().upper()`.
use pages_to_rgb.Prelude.{
  ℕ, ℤ, pos, String, Bool, true, false, ◌||◌, Option, none, some, str_eq, if◌then◌else◌,
}
use pages_to_rgb.Common.Value.{num, flag, text, Fields, end, field}
use pages_to_rgb.Common.Exec.{Result, ok, err, value_error}
use pages_to_rgb.Db.{CameraMode, ocr, photo, ProfileValues}

-- `UNSUPPORTED_CAMERA_MODES`
unfoldable pub is_unsupported : String → Bool
is_unsupported mode = str_eq mode "VIDEO" || str_eq mode "CLIP" || str_eq mode "PREVIEW"

known_mode : String → Result CameraMode
known_mode mode =
    if str_eq mode "OCR" then ok ocr else if str_eq mode "PHOTO" then ok photo else err value_error

unfoldable pub normalize_camera_mode : (String → String) → String → Result CameraMode
unfolding is_unsupported known_mode
normalize_camera_mode normalize mode =
    if is_unsupported (normalize mode) then err value_error else known_mode (normalize mode)

unfoldable pub mode_name : CameraMode → String
mode_name ocr = "OCR"
mode_name photo = "PHOTO"

unfoldable pub default_technical_config : Fields
default_technical_config = field "sensor" (text "OV2640") (
    field "pixel_format" (text "JPEG") (
      field "xclk_hz" (num 10000000) (
        field "buffer_bytes" (num 655360) (
          field "framebuffers" (num 1)
            (field "psram_required" (flag true) (field "dma_enabled" (flag false) end))))))

default_frame_count : CameraMode → ℕ
default_frame_count ocr = 2
default_frame_count photo = 1

unfoldable pub default_profile_values : CameraMode → ProfileValues
unfolding default_technical_config default_frame_count
default_profile_values mode = record {
  frame_size = "UXGA";
  esp_jpeg_quality = 10;
  frame_count = default_frame_count mode;
  intra_frame_gap_ms = 220;
  page_interval_ms = 5000;
  brightness = pos 0;
  contrast = pos 1;
  saturation = pos 0;
  awb = true;
  awb_gain = true;
  wb_mode = "AUTO";
  aec = true;
  aec2 = true;
  agc = true;
  bpc = true;
  wpc = true;
  raw_gamma = true;
  lens_correction = true;
  dcw = true;
  hmirror = false;
  vflip = false;
  special_effect = "NORMAL";
  colorbar = false;
  technical_config = default_technical_config;
}

-- The settings that a request gives; what it does not give is `none`.
pub record RequestedValues : Type 0 where
  pub frame_size : Option String
  pub esp_jpeg_quality : Option ℕ
  pub frame_count : Option ℕ
  pub intra_frame_gap_ms : Option ℕ
  pub page_interval_ms : Option ℕ
  pub brightness : Option ℤ
  pub contrast : Option ℤ
  pub saturation : Option ℤ
  pub awb : Option Bool
  pub awb_gain : Option Bool
  pub wb_mode : Option String
  pub aec : Option Bool
  pub aec2 : Option Bool
  pub agc : Option Bool
  pub bpc : Option Bool
  pub wpc : Option Bool
  pub raw_gamma : Option Bool
  pub lens_correction : Option Bool
  pub dcw : Option Bool
  pub hmirror : Option Bool
  pub vflip : Option Bool
  pub special_effect : Option String
  pub colorbar : Option Bool
  pub technical_config : Option Fields

or_default : {A : Type 0} → Option A → A → A
or_default none d = d
or_default (some a) d = a

-- `{**defaults, **values}`
unfoldable pub requested_profile_values : RequestedValues → CameraMode → ProfileValues
unfolding or_default
requested_profile_values r mode =
    let d = default_profile_values mode in
    record {
      frame_size = or_default r.frame_size d.frame_size;
      esp_jpeg_quality = or_default r.esp_jpeg_quality d.esp_jpeg_quality;
      frame_count = or_default r.frame_count d.frame_count;
      intra_frame_gap_ms = or_default r.intra_frame_gap_ms d.intra_frame_gap_ms;
      page_interval_ms = or_default r.page_interval_ms d.page_interval_ms;
      brightness = or_default r.brightness d.brightness;
      contrast = or_default r.contrast d.contrast;
      saturation = or_default r.saturation d.saturation;
      awb = or_default r.awb d.awb;
      awb_gain = or_default r.awb_gain d.awb_gain;
      wb_mode = or_default r.wb_mode d.wb_mode;
      aec = or_default r.aec d.aec;
      aec2 = or_default r.aec2 d.aec2;
      agc = or_default r.agc d.agc;
      bpc = or_default r.bpc d.bpc;
      wpc = or_default r.wpc d.wpc;
      raw_gamma = or_default r.raw_gamma d.raw_gamma;
      lens_correction = or_default r.lens_correction d.lens_correction;
      dcw = or_default r.dcw d.dcw;
      hmirror = or_default r.hmirror d.hmirror;
      vflip = or_default r.vflip d.vflip;
      special_effect = or_default r.special_effect d.special_effect;
      colorbar = or_default r.colorbar d.colorbar;
      technical_config = or_default r.technical_config d.technical_config;
    }
