-- ===== src/Diagnostics/Frames/Quota.antt =====
-- camera_diagnostics/service.py: the byte quota of a diagnostic, and the pointer to its last frame.
use pages_to_rgb.Prelude.{ℕ, String, ◌≤◌, refl, All, All-update}
use pages_to_rgb.Capture.Upload.Flow.{World}
use pages_to_rgb.Capture.Upload.Request.{Library}
use pages_to_rgb.Diagnostics.Lifecycle.{with_id, write_diagnostic}
use pages_to_rgb.Diagnostics.Frames.{
  FrameRequest, Moment, frame_row, counted, after_put, ingest_frame,
}
use pages_to_rgb.Diagnostics.Frames.Counted.{counted-pointer}
use pages_to_rgb.Diagnostics.Frames.Ingest.{Outcome, ingest_rule}
use pages_to_rgb.Db.{CameraDiagnostic}

abbrev pub WithinQuota : CameraDiagnostic → Type 0
WithinQuota row = row.received_bytes ≤ row.bytes_limit

-- No frame makes a diagnostic hold more bytes than its limit: where every diagnostic is within its
-- limit, every diagnostic is after `ingest_frame`, whatever the request, the storage and the outcome.
pub ingest_frame-WithinQuota :
    (lib : Library) (padded : ℕ → String) (r : FrameRequest) (at : Moment) (w : World)
    → All WithinQuota w.db.diagnostics
    → All WithinQuota (ingest_frame lib padded r at w).1.db.diagnostics
unfolding after_put write_diagnostic frame_row
ingest_frame-WithinQuota lib padded r at w held =
    ingest_rule lib padded r at w (λ (out : Outcome). All WithinQuota out.1.db.diagnostics)
      (λ e. held) (λ f. held)
      (λ row c n objects h.
        let f = frame_row lib padded r at row c n in
        All-update WithinQuota (with_id row.id) (λ _. counted lib padded r at f row)
          w.db.diagnostics (λ a _ _. rw (counted-pointer lib padded r at f row refl) h.within) held)
