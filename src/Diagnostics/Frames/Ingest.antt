-- ===== src/Diagnostics/Frames/Ingest.antt =====
-- camera_diagnostics/service.py: how a call of `ingest_frame` ends.
use pages_to_rgb.Prelude.{
  ℕ, ℤ, String, Bool, List, pos, negsuc, ◌≡◌, ◌≤◌, refl, true, Option, none, some, length, find?,
  leb, ltb, ◌+◌, str_eq, arith, if_rule,
}
use pages_to_rgb.Common.Exec.{Result, ok, err, Error}
use pages_to_rgb.Capture.Storage.{StoredObject, Put, stored, refused}
use pages_to_rgb.Capture.Upload.Flow.{World}
use pages_to_rgb.Capture.Upload.Request.{Library}
use pages_to_rgb.Diagnostics.Lifecycle.{with_id, accepts_frames}
use pages_to_rgb.Diagnostics.Frames.{
  FrameRequest, Moment, Identity, frame_at, identity, same_frame, key_of, frame_row, put_frame,
  after_put, new_frame, checked_again, within_quotas, over_frames, known_or_new, identified,
  for_row, ingest_frame,
}
use pages_to_rgb.Db.{CameraDiagnostic, CameraDiagnosticFrame}

abbrev pub Outcome : Type 0
Outcome = Result (CameraDiagnosticFrame × Bool) × World

module _ (lib : Library) (padded : ℕ → String) (r : FrameRequest) (at : Moment) (w : World) where
  -- What is known where the frame is stored.
  pub record Accepted (row : CameraDiagnostic) (c : Identity) (n : ℕ) : Type 0 where
    pub stored_row : find? (with_id r.diagnostic) w.db.diagnostics ≡ some row
    pub accepting : accepts_frames row.status ≡ true
    pub verified : identity lib padded r at ≡ ok c
    pub index : r.frame_index ≡ pos n
    pub no_frame : find? (frame_at row.id r.frame_index) w.db.diagnostic_frames ≡ none
    pub within : row.received_bytes + length r.bytes ≤ row.bytes_limit

  module _ (Q : Outcome → Type 0) (failed : (e : Error) → Q (err e, w))
      (known : (f : CameraDiagnosticFrame) → Q (ok (f, true), w))
      (new : (row : CameraDiagnostic) (c : Identity) (n : ℕ) (objects : List StoredObject)
        → Accepted row c n
        → Q (
            after_put lib padded r at
              (stored objects)
              row
              (frame_row lib padded r at row c n)
              w)) where
    same_frame_rule :
        (c : Identity) (f : CameraDiagnosticFrame) → Q (same_frame lib padded r at c f w)
    unfolding same_frame
    same_frame_rule c f =
        if_rule Q (str_eq (lib.lower f.sha256) (lib.lower c.sha256)) _ _ (λ _. known f)
          (λ _. failed _)

    put_rule :
        (row : CameraDiagnostic) (c : Identity) (n : ℕ) (p : Put)
        → Accepted row c n
        → Q (after_put lib padded r at p row (frame_row lib padded r at row c n) w)
    unfolding after_put
    put_rule row c n (refused failure) h = failed _
    put_rule row c n (stored objects) h = new row c n objects h

    new_rule :
        (row : CameraDiagnostic) (c : Identity) (n : ℕ)
        → Accepted row c n
        → Q (checked_again lib padded r at row n (identity lib padded r at) w)
    unfolding checked_again new_frame
    new_rule row c n h = rw h.verified (
        rw h.no_frame
          (put_rule row c n (put_frame lib padded r at (key_of lib padded r at row n) w.objects) h))

    within_rule :
        (row : CameraDiagnostic) (c : Identity) (i : ℤ)
        → find? (with_id r.diagnostic) w.db.diagnostics ≡ some row
        → accepts_frames row.status ≡ true
        → identity lib padded r at ≡ ok c
        → r.frame_index ≡ i
        → find? (frame_at row.id r.frame_index) w.db.diagnostic_frames ≡ none
        → Q (within_quotas lib padded r at row i w)
    unfolding within_quotas
    within_rule row c (negsuc n) found open_row same index slot = failed _
    within_rule row c (pos n) found open_row same index slot =
        if_rule Q (leb 10000 n) _ _ (λ _. failed _)
          (λ _.
            if_rule Q (ltb row.bytes_limit (length r.bytes)) _ _ (λ _. failed _)
              (λ _.
                if_rule Q (ltb row.bytes_limit (row.received_bytes + length r.bytes)) _ _
                  (λ _. failed _)
                  (λ fits.
                    if_rule Q (over_frames row r.transient w.db.diagnostic_frames) _ _
                      (λ _. failed _)
                      (λ _. new_rule row c n (record {
                        stored_row = found;
                        accepting = open_row;
                        verified = same;
                        index = index;
                        no_frame = slot;
                        within = ground arith;
                      })))))

    known_or_new_rule :
        (row : CameraDiagnostic) (c : Identity) (o : Option CameraDiagnosticFrame)
        → find? (with_id r.diagnostic) w.db.diagnostics ≡ some row
        → accepts_frames row.status ≡ true
        → identity lib padded r at ≡ ok c
        → find? (frame_at row.id r.frame_index) w.db.diagnostic_frames ≡ o
        → Q (known_or_new lib padded r at row c o w)
    unfolding known_or_new
    known_or_new_rule row c (some f) found open_row same slot = same_frame_rule c f
    known_or_new_rule row c none found open_row same slot =
        within_rule row c r.frame_index found open_row same refl slot

    identified_rule :
        (row : CameraDiagnostic) (o : Result Identity)
        → find? (with_id r.diagnostic) w.db.diagnostics ≡ some row
        → accepts_frames row.status ≡ true
        → identity lib padded r at ≡ o
        → Q (identified lib padded r at row o w)
    unfolding identified
    identified_rule row (err e) found open_row same = failed e
    identified_rule row (ok c) found open_row same =
        known_or_new_rule row c (find? (frame_at row.id r.frame_index) w.db.diagnostic_frames) found
          open_row same refl

    row_rule :
        (o : Option CameraDiagnostic)
        → find? (with_id r.diagnostic) w.db.diagnostics ≡ o
        → Q (for_row lib padded r at o w)
    unfolding for_row
    row_rule none found = failed _
    row_rule (some row) found =
        if_rule Q (accepts_frames row.status) _ _
          (λ h. identified_rule row (identity lib padded r at) found h refl) (λ _. failed _)

    -- What holds of an error that changes nothing, of a known frame that changes nothing, and of the
    -- new frame and the counters of the row that is found, holds of every call.
    pub ingest_rule : Q (ingest_frame lib padded r at w)
    unfolding ingest_frame
    ingest_rule = row_rule (find? (with_id r.diagnostic) w.db.diagnostics) refl
