-- ===== src/Capture/Orphans/Reconciled.antt =====
-- capture/orphans.py: what the job keeps, and what it counts.
use pages_to_rgb.Prelude.{
  ℕ, String, ◌≡◌, refl, ◌⊎◌, Option, none, some, inl, inr, List, [], ◌∷◌, find?, select, take,
  length, ◌+◌, if_rule, arith, ◌∙◌, str_eq,
}
use pages_to_rgb.Common.Exec.{Result, ok, err}
use pages_to_rgb.Capture.Storage.{StoredObject, at_key, get_object}
use pages_to_rgb.Capture.Upload.Request.{Library}
use pages_to_rgb.Capture.Upload.Rows.{capture_key, frame_slot}
use pages_to_rgb.Capture.Upload.Flow.{World, by_public_id, with_frame}
use pages_to_rgb.Capture.Upload.Keys.{Unique, Counted, inserted-Unique, inserted-Counted}
use pages_to_rgb.Capture.Orphans.{
  Job, Outcome, Stats, linked, recreated, discarded, kept, counted_as, resolve, recreated_frame,
  recreate, by_frame, by_capture, by_session, by_key, by_object, reconcile_one, reconcile_all,
  reconcile, parse_frame_key, unresolved, no_stats,
}
use pages_to_rgb.Db.{Session, Capture, Frame, StorageOrphan}

-- The tables of captures and frames are untouched, or a frame that was missing is inserted and
-- counted. The objects are the same.
abbrev pub Linked : Library → World → Outcome × World → Type 0
Linked lib w out =
    (out.1.objects ≡ w.objects)
    × (((out.1.db.captures ≡ w.db.captures) × (out.1.db.frames ≡ w.db.frames))
        ⊎ ((row : Capture) × (f : Frame) × (f.capture_id ≡ row.id)
            × (find? (frame_slot f.capture_id f.frame_index) w.db.frames ≡ none)
            × (out.1.db.captures ≡ (with_frame lib f row w.db).captures)
            × (out.1.db.frames ≡ (with_frame lib f row w.db).frames)))

module _ (lib : Library) (job : Job) (o : StorageOrphan) where
  recreate-Linked :
      (s : Session) (row : Capture) (frame_index : ℕ) (raw : Result (List ℕ)) (w : World)
      → find? (frame_slot row.id frame_index) w.db.frames ≡ none
      → Linked lib w (recreate lib job o s row frame_index raw w)
  unfolding recreate resolve recreated_frame
  recreate-Linked s row frame_index (err e) w free = (refl, inl (refl, refl))
  recreate-Linked s row frame_index (ok raw) w free =
      if_rule (Linked lib w) (str_eq (lib.lower (lib.sha256 raw)) (lib.lower o.sha256)) _ _
        (λ _. (
          refl,
          inr (row, recreated_frame lib job o s row frame_index raw, refl, free, refl, refl),
        ))
        (λ _. (refl, inl (refl, refl)))

  by_frame-Linked :
      (s : Session) (row : Capture) (frame_index : ℕ) (found : Option Frame) (w : World)
      → find? (frame_slot row.id frame_index) w.db.frames ≡ found
      → Linked lib w (by_frame lib job o s row frame_index found w)
  unfolding by_frame resolve
  by_frame-Linked s row frame_index (some f) w e =
      if_rule (Linked lib w) (str_eq (lib.lower f.sha256) (lib.lower o.sha256)) _ _
        (λ _. (refl, inl (refl, refl))) (λ _. (refl, inl (refl, refl)))
  by_frame-Linked s row frame_index none w e =
      recreate-Linked s row frame_index (get_object (job.get_outage o.id) o.bucket o.key w.objects)
        w e

  by_capture-Linked :
      (s : Session) (frame_index : ℕ) (found : Option Capture) (w : World)
      → Linked lib w (by_capture lib job o s frame_index found w)
  unfolding by_capture
  by_capture-Linked s frame_index none w = (refl, inl (refl, refl))
  by_capture-Linked s frame_index (some row) w =
      by_frame-Linked s row frame_index (find? (frame_slot row.id frame_index) w.db.frames) w refl

  by_session-Linked :
      (capture_id : String) (frame_index : ℕ) (found : Option Session) (w : World)
      → Linked lib w (by_session lib job o capture_id frame_index found w)
  unfolding by_session
  by_session-Linked capture_id frame_index none w = (refl, inl (refl, refl))
  by_session-Linked capture_id frame_index (some s) w =
      by_capture-Linked s frame_index (find? (capture_key s.id capture_id) w.db.captures) w

  by_object-Linked :
      (found : Option StoredObject) (key : Option (String × String × ℕ)) (w : World)
      → parse_frame_key job o.key ≡ key
      → Linked lib w (by_object lib job o found w)
  unfolding by_object by_key resolve
  by_object-Linked none key w e = (refl, inl (refl, refl))
  by_object-Linked (some object) none w e = rw e (refl, inl (refl, refl))
  by_object-Linked (some object) (some (sid, capture_id, frame_index)) w e =
      rw e (by_session-Linked capture_id frame_index (find? (by_public_id sid) w.db.sessions) w)

  pub reconcile_one-Linked : (w : World) → Linked lib w (reconcile_one lib job o w)
  unfolding reconcile_one
  reconcile_one-Linked w =
      if_rule (Linked lib w) (job.head_fails o.id) _ _ (λ _. (refl, inl (refl, refl)))
        (λ _.
          by_object-Linked (find? (at_key o.bucket o.key) w.objects) (parse_frame_key job o.key) w
            refl)

abbrev pub total : Stats → ℕ
total st = st.linked + st.recreated + st.discarded + st.kept

counted_as-total : (outcome : Outcome) (st : Stats) → total (counted_as outcome st) ≡ total st + 1
unfolding counted_as
counted_as-total linked st = omega arith
counted_as-total recreated st = omega arith
counted_as-total discarded st = omega arith
counted_as-total kept st = omega arith

reconcile_all-total :
    (lib : Library) (job : Job) (batch : List StorageOrphan) (st : Stats) (w : World)
    → total (reconcile_all lib job batch st w).0 ≡ total st + length batch
unfolding reconcile_all
reconcile_all-total lib job [] st w = omega arith
reconcile_all-total lib job (o ∷ rest) st w =
    let (outcome, w') = reconcile_one lib job o w in
    omega (
      arith,
      reconcile_all-total lib job rest (counted_as outcome st) w',
      counted_as-total outcome st,
    )

one-Unique :
    (lib : Library) (w : World) (out : Outcome × World) → Linked lib w out → Unique w → Unique out.1
one-Unique lib w out (_, inl (captures, frames)) h = rw captures (rw frames h)
one-Unique lib w out (_, inr (row, f, same, free, captures, frames)) h =
    inserted-Unique lib row f w out.1 free captures frames h

one-Counted :
    (lib : Library) (w : World) (out : Outcome × World)
    → Linked lib w out
    → Counted w
    → Counted out.1
one-Counted lib w out (_, inl (captures, frames)) h = rw captures (rw frames h)
one-Counted lib w out (_, inr (row, f, same, free, captures, frames)) h =
    inserted-Counted lib row f w out.1 same captures frames h

-- What every step keeps, the job keeps.
all-keeps :
    (P : World → Type 0) (lib : Library) (job : Job) (batch : List StorageOrphan) (st : Stats)
    (w : World)
    → ((w : World) (out : Outcome × World) → Linked lib w out → P w → P out.1)
    → P w
    → P (reconcile_all lib job batch st w).1
unfolding reconcile_all
all-keeps P lib job [] st w step p = p
all-keeps P lib job (o ∷ rest) st w step p =
    all-keeps P lib job rest (counted_as (reconcile_one lib job o w).0 st)
      (reconcile_one lib job o w).1 step
      (step w (reconcile_one lib job o w) (reconcile_one-Linked lib job o w) p)

-- The job that reconciles orphans leaves the objects alone, stores no second row for a frame, keeps
-- the counter of every capture the number of its frames, and counts every orphan of its batch once.
pub reconcile-keeps :
    (lib : Library) (job : Job) (limit : ℕ) (w : World)
    → Unique w
    → Counted w
    → let out = reconcile lib job limit w in
      (out.1.objects ≡ w.objects)
      × Unique out.1
      × Counted out.1
      × (total out.0 ≡ length (take limit (select unresolved w.db.orphans)))
unfolding reconcile
reconcile-keeps lib job limit w unique counted =
    let batch = take limit (select unresolved w.db.orphans) in
    (
      all-keeps (λ w'. w'.objects ≡ w.objects) lib job batch no_stats w
          (λ w₁ out step e. step.0 ∙ e) refl,
      all-keeps Unique lib job batch no_stats w (one-Unique lib) unique,
      all-keeps Counted lib job batch no_stats w (one-Counted lib) counted,
      omega (arith, reconcile_all-total lib job batch no_stats w),
    )
