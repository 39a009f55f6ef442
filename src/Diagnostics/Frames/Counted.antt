-- ===== src/Diagnostics/Frames/Counted.antt =====
-- camera_diagnostics/service.py: the row of a diagnostic after a new frame.
use pages_to_rgb.Prelude.{
  ℕ, String, ◌≡◌, refl, ap, true, some, List, length, find?, update, leb, ◌+◌, arith, find?-test,
  find?-replace_both,
}
use pages_to_rgb.Capture.Upload.Request.{Library}
use pages_to_rgb.Diagnostics.Lifecycle.{with_id}
use pages_to_rgb.Diagnostics.Exclusive.{found_by_own_id}
use pages_to_rgb.Diagnostics.Frames.{FrameRequest, Moment, counted, pointed}
use pages_to_rgb.Db.{CameraDiagnostic, CameraDiagnosticFrame}

module _ (lib : Library) (padded : ℕ → String) (r : FrameRequest) (at : Moment)
    (f : CameraDiagnosticFrame) (row : CameraDiagnostic)
    (next : f.sequence ≡ row.last_sequence + 1) where
  -- The row that a new frame leaves: the sequence of the frame is one more than the last, so the
  -- pointer moves to it whatever its index is.
  pub counted-pointer : counted lib padded r at f row ≡ record row {
    received_frames = row.received_frames + 1;
    received_bytes = row.received_bytes + length r.bytes;
    last_sequence = f.sequence;
    last_frame_index = some f.frame_index;
    last_frame_sha256 = some f.sha256;
    last_frame_key = some f.storage_key;
    last_frame_at = some at.now;
  }
  unfolding counted pointed
  counted-pointer =
      let ahead : leb row.last_sequence f.sequence ≡ true = ground arith in rw ahead refl

  pub counted-id : (counted lib padded r at f row).id ≡ row.id
  counted-id = ap (λ (x : CameraDiagnostic). x.id) counted-pointer

  pub counted-status : (counted lib padded r at f row).status ≡ row.status
  counted-status = ap (λ (x : CameraDiagnostic). x.status) counted-pointer

  -- The key by which the row was found finds the row that replaces it.
  pub counted-found :
      (id : ℕ) (rows : List CameraDiagnostic)
      → find? (with_id id) rows ≡ some row
      → find? (with_id id) (update (with_id row.id) (λ _. counted lib padded r at f row) rows)
        ≡ some (counted lib padded r at f row)
  counted-found id rows found =
      find?-replace_both (with_id row.id) (with_id id) rows {c = row}
        (counted lib padded r at f row) (found_by_own_id id rows {row = row} found) found
        (rw counted-id (find?-test (with_id id) rows {a = row} found))
