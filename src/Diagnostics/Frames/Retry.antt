-- ===== src/Diagnostics/Frames/Retry.antt =====
-- camera_diagnostics/service.py: a frame that is sent again.
use pages_to_rgb.Prelude.{
  ℕ, String, ◌≡◌, refl, true, false, some, List, [], ◌∷◌, ◌++◌, find?, eq_refl, str_eq, arith,
  subst, update, find?-append_none,
}
use pages_to_rgb.Common.Exec.{ok}
use pages_to_rgb.Capture.Storage.{stored, StoredObject}
use pages_to_rgb.Capture.Upload.Flow.{World}
use pages_to_rgb.Capture.Upload.Request.{Library}
use pages_to_rgb.Diagnostics.Lifecycle.{with_id, write_diagnostic, accepts_frames}
use pages_to_rgb.Diagnostics.Frames.{
  FrameRequest, Moment, Identity, frame_at, identity, frame_row, counted, after_put, ingest_frame,
  for_row, identified, known_or_new, same_frame,
}
use pages_to_rgb.Diagnostics.Frames.Ingest.{Outcome, Accepted, ingest_rule}
use pages_to_rgb.Diagnostics.Frames.Counted.{counted-found, counted-id, counted-status}
use pages_to_rgb.Db.{CameraDiagnostic, CameraDiagnosticFrame}

module _ (lib : Library) (padded : ℕ → String) where
  -- A known frame with the same digest is answered as a duplicate: no quota is read.
  known_duplicate :
      (r : FrameRequest) (at : Moment) (w : World) (row : CameraDiagnostic)
      (f : CameraDiagnosticFrame) (c : Identity)
      → find? (with_id r.diagnostic) w.db.diagnostics ≡ some row
      → accepts_frames row.status ≡ true
      → identity lib padded r at ≡ ok c
      → find? (frame_at row.id r.frame_index) w.db.diagnostic_frames ≡ some f
      → str_eq (lib.lower f.sha256) (lib.lower c.sha256) ≡ true
      → ingest_frame lib padded r at w ≡ (ok (f, true), w)
  unfolding ingest_frame for_row identified known_or_new same_frame
  known_duplicate r at w row f c found accepting same slot digest =
      rw found (rw accepting (rw same (rw slot (rw digest refl))))

  -- `identity` reads the request only.
  identity-later :
      (r : FrameRequest) (at later : Moment)
      → identity lib padded r at ≡ identity lib padded r later
  unfolding identity
  identity-later r at later = refl

  Retried : FrameRequest → Moment → Outcome → Type 0
  Retried r later out =
      (f : CameraDiagnosticFrame)
      → out.0 ≡ ok (f, false)
      → ingest_frame lib padded r later out.1 ≡ (ok (f, true), out.1)

  new-Retried :
      (r : FrameRequest) (at later : Moment) (w : World) (row : CameraDiagnostic) (c : Identity)
      (n : ℕ) (objects : List StoredObject)
      → Accepted lib padded r at w row c n
      → Retried r later
          (after_put lib padded r at (stored objects) row (frame_row lib padded r at row c n) w)
  unfolding Retried after_put write_diagnostic frame_row
  new-Retried r at later w row c n objects h f0 same =
      let f = frame_row lib padded r at row c n in
      let row' = counted lib padded r at f row in
      let f_is : f ≡ f0 = cc in
      let after : World = record w {
        db = record w.db {
          diagnostics = update (with_id row.id) (λ _. row') w.db.diagnostics;
          diagnostic_frames = w.db.diagnostic_frames ++ f ∷ [];
        };
        objects = objects;
      } in
      subst
        (λ (x : CameraDiagnosticFrame).
          ingest_frame lib padded r later after ≡ (ok (x, true), after))
        f_is
        (known_duplicate r later after row' f c
          (counted-found lib padded r at f row refl r.diagnostic w.db.diagnostics h.stored_row)
          (rw (counted-status lib padded r at f row refl) h.accepting)
          (rw (identity-later r later at) h.verified)
          (rw (counted-id lib padded r at f row refl) (
            rw
              (find?-append_none (frame_at row.id r.frame_index) w.db.diagnostic_frames (f ∷ [])
                h.no_frame)
              (rw h.index (ground arith))))
          (eq_refl (lib.lower c.sha256)))

  -- The repetition of a request whose frame was stored is answered with the stored row as a duplicate
  -- and changes nothing, also where that frame was the last that the quotas allowed, and whatever the
  -- storage does at that time.
  pub retry_is_duplicate :
      (r : FrameRequest) (at later : Moment) (w : World) (f : CameraDiagnosticFrame)
      → (ingest_frame lib padded r at w).0 ≡ ok (f, false)
      → let after = (ingest_frame lib padded r at w).1 in
        ingest_frame lib padded r later after ≡ (ok (f, true), after)
  unfolding Retried
  retry_is_duplicate r at later w f stored_once =
      ingest_rule lib padded r at w (Retried r later) (λ e f0 same. cc) (λ f' f0 same. cc)
        (new-Retried r at later w) f stored_once
