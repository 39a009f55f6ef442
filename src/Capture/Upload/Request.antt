-- ===== src/Capture/Upload/Request.antt =====
-- capture/frame_upload.py: the request of an upload and the checks that come before the database.
pub mod Bounds
use pages_to_rgb.Prelude.{
  ℕ, ℤ, pos, negsuc, String, Bool, true, false, not, ◌&&◌, ◌||◌, Option, none, some, List, [], ◌∷◌,
  length, any, leb, ltb, ◌==◌, str_eq, if◌then◌else◌,
}
use pages_to_rgb.Common.Exec.{Done, done, Result, ok, err, app_error, and_then}

pub record FrameUploadRequest : Type 0 where
  pub session_id : String
  pub capture_id : String
  pub frame_index : ℤ
  pub declared_sha256 : String
  pub bytes : List ℕ
  pub mime_type : String
  pub received_android_at : Option String
  pub capture_source : String
  pub android_orientation : Option ℤ
  pub source_resolution : Option String
  pub page_number : Option ℤ
  pub frame_number : Option ℤ

-- What the checks compute.
pub record Checked : Type 0 where
  pub frame_index : ℕ
  pub page_number : Option ℕ
  pub frame_number : Option ℕ
  pub width : ℕ
  pub height : ℕ
  pub sha256 : String

pub data Decoded : Type 0 where
  no_decoder undecodable : Decoded
  image : ℕ → ℕ → Decoded

-- What the code uses of the standard library and of the image library: the hexadecimal digest
-- SHA-256, `str.lower`, `str` of a number, `datetime.fromisoformat`, the decoded image, and the gray
-- JPEG, `none` where the library raises.
pub record Library : Type 0 where
  pub sha256 : List ℕ → String
  pub lower : String → String
  pub digits : ℕ → String
  pub parse_time : String → Option ℕ
  pub decode : List ℕ → Decoded
  pub gray : List ℕ → Option (List ℕ)

unfoldable pub check_index : ℤ → Result ℕ
check_index (pos n) = ok n
check_index (negsuc n) = err (app_error "FRAME_INVALID_MAGIC_BYTES" 422)

unfoldable pub check_number : Option ℤ → Result (Option ℕ)
check_number none = ok none
check_number (some (pos n)) = ok (some n)
check_number (some (negsuc n)) = err (app_error "FRAME_INVALID_MAGIC_BYTES" 422)

-- `data.startswith(m)`
abbrev starts_with : List ℕ → List ℕ → Bool
starts_with bytes [] = true
starts_with [] (m ∷ ms) = false
starts_with (b ∷ bytes) (m ∷ ms) = b == m && starts_with bytes ms

abbrev allowed_mime : String → Bool
allowed_mime mime = str_eq mime "image/jpeg" || str_eq mime "image/png" || str_eq mime "image/webp"

unfoldable pub magic_bytes : String → List (List ℕ)
magic_bytes mime =
    if str_eq mime "image/jpeg"
    then (255 ∷ 216 ∷ 255 ∷ []) ∷ []
    else if str_eq mime "image/png"
    then (137 ∷ 80 ∷ 78 ∷ 71 ∷ 13 ∷ 10 ∷ 26 ∷ 10 ∷ []) ∷ []
    else if str_eq mime "image/webp"
    then (82 ∷ 73 ∷ 70 ∷ 70 ∷ []) ∷ []
    else []

unfoldable pub validate_mime : List ℕ → String → Result Done
unfolding magic_bytes
validate_mime bytes mime =
    if not (allowed_mime mime)
    then err (app_error "FRAME_INVALID_MIME" 415)
    else if any (starts_with bytes) (magic_bytes mime)
    then ok done
    else err (app_error "FRAME_INVALID_MAGIC_BYTES" 415)

abbrev pub max_frame_size : ℕ
max_frame_size = 10485760

unfoldable pub check_size : List ℕ → Result Done
check_size bytes =
    if ltb max_frame_size (length bytes) then err (app_error "FRAME_TOO_LARGE" 413) else ok done

abbrev pub in_range : ℕ → Bool
in_range side = leb 64 side && leb side 8192

unfoldable pub validate_image_content : Decoded → Result (ℕ × ℕ)
validate_image_content no_decoder = err (app_error "FRAME_INVALID_MAGIC_BYTES" 500)
validate_image_content undecodable = err (app_error "FRAME_INVALID_MAGIC_BYTES" 415)
validate_image_content (image width height) =
    if in_range width && in_range height
    then ok (width, height)
    else err (app_error "FRAME_INVALID_MAGIC_BYTES" 422)

module _ (lib : Library) where
  unfoldable pub check_hash : List ℕ → String → Result String
  check_hash bytes declared =
      if str_eq (lib.lower (lib.sha256 bytes)) (lib.lower declared)
      then ok (lib.sha256 bytes)
      else err (app_error "FRAME_HASH_MISMATCH" 409)

  unfoldable pub validate : FrameUploadRequest → Result Checked
  unfolding check_index check_number validate_mime check_size validate_image_content check_hash
  validate r = and_then (check_index r.frame_index) (λ index.
      and_then (check_number r.page_number) (λ page.
        and_then (check_number r.frame_number) (λ number.
          and_then (validate_mime r.bytes r.mime_type) (λ _. and_then (check_size r.bytes) (λ _.
            and_then (validate_image_content (lib.decode r.bytes)) (λ (width, height).
              and_then (check_hash r.bytes r.declared_sha256) (λ digest. ok (record {
                frame_index = index;
                page_number = page;
                frame_number = number;
                width = width;
                height = height;
                sha256 = digest;
              }))))))))
