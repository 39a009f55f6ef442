-- ===== src/Capture/Upload/Keys.antt =====
-- The keys and the counters of captures and frames, and what the insertion of a frame does to them.
use pages_to_rgb.Prelude.{
  ℕ, String, ◌≡◌, ◌≤◌, refl, true, Bool, ◌==◌, ◌+◌, none, inl, inr, List, [], ◌∷◌, ◌++◌, find?,
  count, update, count-append, count-update_le, find?-none-count, All, Bool-cases, arith, if_rule,
  str_eq, eq_iff,
}
use pages_to_rgb.Capture.Upload.Request.{Library}
use pages_to_rgb.Capture.Upload.Rows.{capture_key, frame_slot}
use pages_to_rgb.Capture.Upload.Flow.{World, with_frame}
use pages_to_rgb.Db.{Db, Capture, Frame}

-- At most one row for a frame of a capture, and at most one for a capture of a session.
abbrev pub Unique : World → Type 0
Unique w =
    ((capture_id frame_index : ℕ) → count (frame_slot capture_id frame_index) w.db.frames ≤ 1)
    × ((session_id : ℕ) (capture_id : String)
        → count (capture_key session_id capture_id) w.db.captures ≤ 1)

-- The rows of a capture's frames.
abbrev pub of_capture : ℕ → Frame → Bool
of_capture capture_id f = f.capture_id == capture_id

-- The counter of a capture is the number of its frames.
abbrev pub Counted : World → Type 0
Counted w =
    All (λ (k : Capture). k.received_frames ≡ count (of_capture k.id) w.db.frames) w.db.captures

pub frames-Unique :
    (f : Frame) (frames : List Frame) (i j : ℕ)
    → find? (frame_slot f.capture_id f.frame_index) frames ≡ none
    → count (frame_slot i j) frames ≤ 1
    → count (frame_slot i j) (frames ++ f ∷ []) ≤ 1
frames-Unique f frames i j free le = elim (Bool-cases (frame_slot i j f)) [
  | inl e ↦
      (let a : f.capture_id ≡ i = ground arith in
        let b : f.frame_index ≡ j = ground arith in
        let zero_there = find?-none-count (frame_slot f.capture_id f.frame_index) frames free in
        let z : count (frame_slot i j) frames ≡ 0 = rw⁻¹ a (rw⁻¹ b zero_there) in
        ground (arith, count-append (frame_slot i j) frames (f ∷ [])))
  | inr e ↦ ground (arith, count-append (frame_slot i j) frames (f ∷ []))
]

pub captures-Unique :
    (k : Capture) (captures : List Capture) (i : ℕ) (id : String)
    → find? (capture_key k.session_id k.capture_id) captures ≡ none
    → count (capture_key i id) captures ≤ 1
    → count (capture_key i id) (captures ++ k ∷ []) ≤ 1
captures-Unique k captures i id free le = elim (Bool-cases (capture_key i id k)) [
  | inl e ↦
      (let a : k.session_id ≡ i = ground arith in
        let text_same : str_eq k.capture_id id ≡ true = ground arith in
        let b : k.capture_id ≡ id = (eq_iff k.capture_id id).0 text_same in
        let zero_there = find?-none-count (capture_key k.session_id k.capture_id) captures free in
        let z : count (capture_key i id) captures ≡ 0 = rw⁻¹ a (rw⁻¹ b zero_there) in
        ground (arith, count-append (capture_key i id) captures (k ∷ [])))
  | inr e ↦ ground (arith, count-append (capture_key i id) captures (k ∷ []))
]

module _ (lib : Library) (row : Capture) (f : Frame) where
  pub written :
      (db : Db)
      → ((with_frame lib f row db).captures
          ≡ update
              (λ (k : Capture). k.id == row.id)
              (λ k. record k { received_frames = k.received_frames + 1 })
              db.captures)
        × ((with_frame lib f row db).frames ≡ db.frames ++ f ∷ [])
  unfolding with_frame
  written db = (refl, refl)

  pub inserted-Unique :
      (w w' : World)
      → find? (frame_slot f.capture_id f.frame_index) w.db.frames ≡ none
      → w'.db.captures ≡ (with_frame lib f row w.db).captures
      → w'.db.frames ≡ (with_frame lib f row w.db).frames
      → Unique w
      → Unique w'
  inserted-Unique w w' free captures frames (one_frame, one_capture) = (
    λ i j. rw frames (rw ((written w.db).1) (frames-Unique f w.db.frames i j free (one_frame i j))),
    λ i id. rw captures (
        rw ((written w.db).0) (
          let le =
            count-update_le (capture_key i id) (λ (k : Capture). k.id == row.id)
              (λ k. record k { received_frames = k.received_frames + 1 }) w.db.captures
              (λ k _ h. h) in
          let one = one_capture i id in omega (arith, le, one))),
  )

  counted_rows :
      (frames : List Frame) (captures : List Capture)
      → f.capture_id ≡ row.id
      → All (λ (k : Capture). k.received_frames ≡ count (of_capture k.id) frames) captures
      → All
          (λ (k : Capture). k.received_frames ≡ count (of_capture k.id) (frames ++ f ∷ []))
          (update
            (λ (k : Capture). k.id == row.id)
            (λ k. record k { received_frames = k.received_frames + 1 })
            captures)
  counted_rows frames [] same h = tt
  counted_rows frames (k ∷ captures) same (now, rest) = (
    if_rule (λ (k' : Capture). k'.received_frames ≡ count (of_capture k'.id) (frames ++ f ∷ []))
        (k.id == row.id) (record k { received_frames = k.received_frames + 1 }) k
        (λ e. ground (arith, count-append (of_capture k.id) frames (f ∷ [])))
        (λ e. ground (arith, count-append (of_capture k.id) frames (f ∷ []))),
    counted_rows frames captures same rest,
  )

  pub inserted-Counted :
      (w w' : World)
      → f.capture_id ≡ row.id
      → w'.db.captures ≡ (with_frame lib f row w.db).captures
      → w'.db.frames ≡ (with_frame lib f row w.db).frames
      → Counted w
      → Counted w'
  inserted-Counted w w' same captures frames h = rw captures (
      rw frames (
        rw ((written w.db).0)
          (rw ((written w.db).1) (counted_rows w.db.frames w.db.captures same h))))
