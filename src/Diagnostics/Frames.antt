-- ===== src/Diagnostics/Frames.antt =====
-- camera_diagnostics/service.py: `ingest_frame`, up to the scheduling of a clip's conversion, which
-- comes after all of it and whose exceptions are caught. `padded` formats a number with four digits.
-- The checks of the identity stand twice, as they do in the source.
pub mod Ingest
pub mod Counted
pub mod Pointer
pub mod Quota
pub mod Retry
use pages_to_rgb.Prelude.{
  ℕ, ℤ, pos, negsuc, String, Bool, true, false, not, ◌&&◌, Option, none, some, List, [], ◌∷◌, ◌++◌,
  length, find?, count, leb, ltb, ◌==◌, ◌+◌, str_eq, if◌then◌else◌,
}
use pages_to_rgb.Common.Exec.{Exec, Result, ok, err, app_error, and_then}
use pages_to_rgb.Capture.Storage.{
  StoredObject, Put, stored, refused, error_of, put_object, overwrite_object,
}
use pages_to_rgb.Capture.Upload.Flow.{World}
use pages_to_rgb.Capture.Upload.Request.{Library, validate_mime, validate_image_content, check_hash}
use pages_to_rgb.Diagnostics.Limits.{frame_key_of}
use pages_to_rgb.Diagnostics.Lifecycle.{with_id, write_diagnostic, accepts_frames}
use pages_to_rgb.Db.{CameraDiagnostic, CameraDiagnosticFrame, Bucket}

pub record FrameRequest : Type 0 where
  pub diagnostic : ℕ
  pub bucket : Bucket
  pub device_code : String
  pub frame_index : ℤ
  pub declared_sha256 : String
  pub bytes : List ℕ
  pub captured_mono_ms : Option ℕ
  pub transient : Bool

-- What happens around one frame: the id that the database makes, the clock, and an outage.
pub record Moment : Type 0 where
  pub id : ℕ
  pub now : ℕ
  pub outage : Option String

pub record Identity : Type 0 where
  pub width : ℕ
  pub height : ℕ
  pub sha256 : String

abbrev pub frame_at : ℕ → ℤ → CameraDiagnosticFrame → Bool
frame_at diagnostic (pos n) f = f.diagnostic_id == diagnostic && f.frame_index == n
frame_at diagnostic (negsuc n) f = false

abbrev of_diagnostic : ℕ → CameraDiagnosticFrame → Bool
of_diagnostic diagnostic f = f.diagnostic_id == diagnostic

-- `int(row.max_frames or 1)`
or_one : ℕ → ℕ
or_one n = if n == 0 then 1 else n

unfoldable pub over_frames : CameraDiagnostic → Bool → List CameraDiagnosticFrame → Bool
unfolding or_one
over_frames row transient frames =
    leb (or_one row.max_frames) row.received_frames
    && not transient
    && leb (or_one row.max_frames) (count (of_diagnostic row.id) frames)

module _ (lib : Library) (padded : ℕ → String) (r : FrameRequest) (at : Moment) where
  unfoldable pub identity : Result Identity
  identity = and_then (validate_mime r.bytes "image/jpeg") (λ _.
      and_then (validate_image_content (lib.decode r.bytes)) (λ (width, height).
        and_then (check_hash lib r.bytes r.declared_sha256)
          (λ digest. ok (record { width = width; height = height; sha256 = digest }))))

  unfoldable pub same_frame :
      Identity → CameraDiagnosticFrame → Exec World (CameraDiagnosticFrame × Bool)
  same_frame c f w =
      if str_eq (lib.lower f.sha256) (lib.lower c.sha256)
      then (ok (f, true), w)
      else (err (app_error "FRAME_DUPLICATE_CONFLICT" 409), w)

  unfoldable pub key_of : CameraDiagnostic → ℕ → String
  key_of row n = frame_key_of padded r.transient row.mode r.device_code row.diagnostic_id n

  unfoldable pub frame_row : CameraDiagnostic → Identity → ℕ → CameraDiagnosticFrame
  unfolding key_of
  frame_row row c n = record {
    id = at.id;
    diagnostic_id = row.id;
    frame_index = n;
    sequence = row.last_sequence + 1;
    sha256 = c.sha256;
    storage_key = key_of row n;
    bytes = length r.bytes;
    width = some c.width;
    height = some c.height;
    captured_mono_ms = r.captured_mono_ms;
    received_at = at.now;
    transient = r.transient;
  }

  unfoldable pub pointed : CameraDiagnosticFrame → CameraDiagnostic → CameraDiagnostic
  pointed f row =
      if leb row.last_sequence f.sequence
      then (record row {
        last_sequence = f.sequence;
        last_frame_index = some f.frame_index;
        last_frame_sha256 = some f.sha256;
        last_frame_key = some f.storage_key;
        last_frame_at = some at.now;
      })
      else row

  unfoldable pub counted : CameraDiagnosticFrame → CameraDiagnostic → CameraDiagnostic
  unfolding pointed
  counted f row = pointed f (record row {
    received_frames = row.received_frames + 1;
    received_bytes = row.received_bytes + length r.bytes;
  })

  unfoldable pub after_put :
      Put → CameraDiagnostic → CameraDiagnosticFrame → Exec World (CameraDiagnosticFrame × Bool)
  unfolding counted
  after_put (refused failure) row f w = (err (error_of failure), w)
  after_put (stored objects) row f w =
      let db = write_diagnostic row.id (λ _. counted f row) w.db in
      (
        ok (f, false),
        record w {
          db = record db { diagnostic_frames = db.diagnostic_frames ++ f ∷ [] };
          objects = objects;
        },
      )

  unfoldable pub put_frame : String → List StoredObject → Put
  put_frame key objects =
      if r.transient
      then overwrite_object at.outage r.bucket key r.bytes objects
      else put_object at.outage r.bucket key r.bytes objects

  unfoldable pub new_frame :
      CameraDiagnostic
      → Identity
      → ℕ
      → Option CameraDiagnosticFrame
      → Exec World (CameraDiagnosticFrame × Bool)
  unfolding same_frame after_put
  new_frame row c n (some f) w = same_frame c f w
  new_frame row c n none w =
      after_put (put_frame (key_of row n) w.objects) row (frame_row row c n) w

  unfoldable pub checked_again :
      CameraDiagnostic → ℕ → Result Identity → Exec World (CameraDiagnosticFrame × Bool)
  unfolding new_frame
  checked_again row n (err e) w = (err e, w)
  checked_again row n (ok c) w =
      new_frame row c n (find? (frame_at row.id r.frame_index) w.db.diagnostic_frames) w

  unfoldable pub within_quotas : CameraDiagnostic → ℤ → Exec World (CameraDiagnosticFrame × Bool)
  unfolding checked_again
  within_quotas row (negsuc n) w = (err (app_error "INVALID_REQUEST" 422), w)
  within_quotas row (pos n) w =
      if leb 10000 n
      then (err (app_error "INVALID_REQUEST" 422), w)
      else if ltb row.bytes_limit (length r.bytes)
      then (err (app_error "FRAME_TOO_LARGE" 413), w)
      else if ltb row.bytes_limit (row.received_bytes + length r.bytes)
      then (err (app_error "FRAME_TOO_LARGE" 413), w)
      else if over_frames row r.transient w.db.diagnostic_frames
      then (err (app_error "FRAME_TOO_LARGE" 413), w)
      else checked_again row n identity w

  unfoldable pub known_or_new :
      CameraDiagnostic
      → Identity
      → Option CameraDiagnosticFrame
      → Exec World (CameraDiagnosticFrame × Bool)
  unfolding same_frame within_quotas
  known_or_new row c (some f) w = same_frame c f w
  known_or_new row c none w = within_quotas row r.frame_index w

  unfoldable pub identified :
      CameraDiagnostic → Result Identity → Exec World (CameraDiagnosticFrame × Bool)
  unfolding known_or_new
  identified row (err e) w = (err e, w)
  identified row (ok c) w =
      known_or_new row c (find? (frame_at row.id r.frame_index) w.db.diagnostic_frames) w

  unfoldable pub for_row : Option CameraDiagnostic → Exec World (CameraDiagnosticFrame × Bool)
  unfolding identified
  for_row none w = (err (app_error "NOT_FOUND" 404), w)
  for_row (some row) w =
      if accepts_frames row.status
      then identified row identity w
      else (err (app_error "SESSION_LOCKED" 409), w)

  unfoldable pub ingest_frame : Exec World (CameraDiagnosticFrame × Bool)
  unfolding for_row
  ingest_frame w = for_row (find? (with_id r.diagnostic) w.db.diagnostics) w
