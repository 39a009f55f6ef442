-- ===== src/Diagnostics/Frames/Pointer.antt =====
-- camera_diagnostics/service.py: the pointer of a diagnostic to its last frame.
use pages_to_rgb.Prelude.{
  ℕ, String, pos, ◌≡◌, refl, ap, subst, false, some, List, length, find?, ◌+◌,
}
use pages_to_rgb.Common.Exec.{ok}
use pages_to_rgb.Capture.Storage.{stored, StoredObject}
use pages_to_rgb.Capture.Upload.Flow.{World}
use pages_to_rgb.Capture.Upload.Request.{Library}
use pages_to_rgb.Diagnostics.Lifecycle.{with_id, write_diagnostic}
use pages_to_rgb.Diagnostics.Frames.{
  FrameRequest, Moment, Identity, frame_row, counted, after_put, ingest_frame,
}
use pages_to_rgb.Diagnostics.Frames.Ingest.{Outcome, Accepted, ingest_rule}
use pages_to_rgb.Diagnostics.Frames.Counted.{counted-found, counted-pointer}
use pages_to_rgb.Db.{CameraDiagnostic, CameraDiagnosticFrame}

module _ (lib : Library) (padded : ℕ → String) (r : FrameRequest) (at : Moment) (w : World) where
  -- The row of the diagnostic has the counters of one frame more and points to it.
  abbrev pub PointsTo : CameraDiagnosticFrame → World → Type 0
  PointsTo f after =
      (old : CameraDiagnostic) × (new : CameraDiagnostic) × (find? (with_id r.diagnostic)
          w.db.diagnostics
        ≡ some old)
      × (find? (with_id r.diagnostic) after.db.diagnostics ≡ some new)
      × (new.received_frames ≡ old.received_frames + 1)
      × (new.received_bytes ≡ old.received_bytes + length r.bytes)
      × (new.last_sequence ≡ old.last_sequence + 1)
      × (new.last_frame_index ≡ some f.frame_index)
      × (new.last_frame_sha256 ≡ some f.sha256)
      × (new.last_frame_key ≡ some f.storage_key)

  Pointed : Outcome → Type 0
  Pointed out =
      (f : CameraDiagnosticFrame)
      → out.0 ≡ ok (f, false)
      → (r.frame_index ≡ pos f.frame_index) × PointsTo f out.1

  new-Pointed :
      (row : CameraDiagnostic) (c : Identity) (n : ℕ) (objects : List StoredObject)
      → Accepted lib padded r at w row c n
      → Pointed
          (after_put lib padded r at (stored objects) row (frame_row lib padded r at row c n) w)
  unfolding Pointed after_put write_diagnostic frame_row
  new-Pointed row c n objects h f0 same =
      let f = frame_row lib padded r at row c n in
      let row' = counted lib padded r at f row in
      let pointer = counted-pointer lib padded r at f row refl in
      let f_is : f ≡ f0 = cc in
      subst
        (λ (x : CameraDiagnosticFrame).
          (r.frame_index ≡ pos x.frame_index)
          × PointsTo x
              (after_put lib padded r at (stored objects) row (frame_row lib padded r at row c n)
                w).1)
        f_is
        (
          h.index,
          (
            row,
            row',
            h.stored_row,
            counted-found lib padded r at f row refl r.diagnostic w.db.diagnostics h.stored_row,
            ap (λ (x : CameraDiagnostic). x.received_frames) pointer,
            ap (λ (x : CameraDiagnostic). x.received_bytes) pointer,
            ap (λ (x : CameraDiagnostic). x.last_sequence) pointer,
            ap (λ (x : CameraDiagnostic). x.last_frame_index) pointer,
            ap (λ (x : CameraDiagnostic). x.last_frame_sha256) pointer,
            ap (λ (x : CameraDiagnostic). x.last_frame_key) pointer,
          ),
        )

  -- A frame that is stored is the frame that its diagnostic points to from then on, whatever its index
  -- is: an index that is smaller than the last one moves the pointer as well. The counters of the
  -- frames, the bytes and the sequence grow by this one frame.
  pub stored_frame_is_last :
      (f : CameraDiagnosticFrame)
      → (ingest_frame lib padded r at w).0 ≡ ok (f, false)
      → (r.frame_index ≡ pos f.frame_index) × PointsTo f (ingest_frame lib padded r at w).1
  unfolding Pointed
  stored_frame_is_last =
      ingest_rule lib padded r at w Pointed (λ e f0 same. cc) (λ f f0 same. cc) new-Pointed
