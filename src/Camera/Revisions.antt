-- ===== src/Camera/Revisions.antt =====
-- camera_profiles/service.py: a new revision takes the place of the one before it.
use pages_to_rgb.Prelude.{
  ℕ, ◌≡◌, ◌≤◌, ◌<◌, refl, ap, true, false, Bool, ◌&&◌, Option, none, some, inl, inr, List, [], ◌∷◌,
  ◌++◌, count, update, ◌==◌, ==_refl, All, All-update, arith, if_rule, Bool-cases, Option-cases,
}
use pages_to_rgb.Camera.Profiles.{
  later, same_mode, same_device, in_scope, in_force, latest, next_revision, supersede,
}
use pages_to_rgb.Db.{Db, CameraMode, ocr, photo, CameraProfileRevision}

-- Every row of the test has a lower revision.
abbrev pub Below : ℕ → (CameraProfileRevision → Bool) → List CameraProfileRevision → Type 0
Below n p rows = All (λ (r : CameraProfileRevision). p r ≡ true → r.revision < n) rows

later-Below :
    (row : CameraProfileRevision) (o : Option CameraProfileRevision) (n : ℕ)
    → next_revision (some (later row o)) ≤ n
    → (row.revision < n) × (next_revision o ≤ n)
unfolding later next_revision
later-Below row none n h = (omega arith, omega arith)
later-Below row (some other) n h = ground arith

pub latest-Below :
    (p : CameraProfileRevision → Bool) (rows : List CameraProfileRevision) (n : ℕ)
    → 1 ≤ n
    → next_revision (latest p rows) ≤ n
    → Below n p rows
unfolding latest
latest-Below p [] n one h = tt
latest-Below p (row ∷ rows) n one h = elim (Bool-cases (p row)) [
  | inl e ↦
      (let (less, rest) = later-Below row (latest p rows) n (rw e at h) in
        (λ _. less, latest-Below p rows n one rest))
  | inr e ↦ (λ t. cc (t, e), latest-Below p rows n one (rw e at h))
]

later-less : (x row : CameraProfileRevision) → x.revision < row.revision → later x (some row) ≡ row
unfolding later
later-less x row less = ground arith

pub latest-snoc :
    (p : CameraProfileRevision → Bool) (rows : List CameraProfileRevision)
    (row : CameraProfileRevision)
    → Below row.revision p rows
    → p row ≡ true
    → latest p (rows ++ row ∷ []) ≡ some row
unfolding latest later
latest-snoc p [] row below test = rw test refl
latest-snoc p (x ∷ rows) row (less, below) test = elim (Bool-cases (p x)) [
  | inl e ↦ rw e (rw (latest-snoc p rows row below test) (ap some (later-less x row (less e))))
  | inr e ↦ rw e (latest-snoc p rows row below test)
]

pub Below-weaken :
    (n : ℕ) (p q : CameraProfileRevision → Bool) (rows : List CameraProfileRevision)
    → ((r : CameraProfileRevision) → q r ≡ true → p r ≡ true)
    → Below n p rows
    → Below n q rows
Below-weaken n p q [] h below = tt
Below-weaken n p q (r ∷ rows) h (less, below) = (λ t. less (h r t), Below-weaken n p q rows h below)

pub same_scope :
    (mode : CameraMode) (device_id : Option ℕ)
    → (same_mode mode mode && same_device device_id device_id) ≡ true
same_scope ocr none = refl
same_scope photo none = refl
same_scope ocr (some d) = ==_refl d
same_scope photo (some d) = ==_refl d

-- A test of the scope, which superseding a row does not change.
module _ (mode : CameraMode) (device_id : Option ℕ) where
  pub supersede-Below :
      (now n : ℕ) (o : Option CameraProfileRevision) (rows : List CameraProfileRevision)
      → Below n (in_scope mode device_id) rows
      → Below n (in_scope mode device_id) (supersede now o rows)
  unfolding supersede
  supersede-Below now n none rows below = below
  supersede-Below now n (some l) rows below =
      if_rule (Below n (in_scope mode device_id)) l.active _ _
        (λ _.
          All-update
            (λ (r : CameraProfileRevision). in_scope mode device_id r ≡ true → r.revision < n)
            (λ (r : CameraProfileRevision). r.id == l.id)
            (λ r. record r { active = false; superseded_at = some now }) rows (λ r h _. h) below)
        (λ _. below)

  -- If a revision of the scope is active, it is the last one.
  abbrev pub LastActive : Db → Type 0
  LastActive db =
      All
        (λ (r : CameraProfileRevision).
          in_force mode device_id r ≡ true
          → (l : CameraProfileRevision) × (latest (in_scope mode device_id) db.camera_profiles
              ≡ some l)
            × (r.id ≡ l.id)
            × (l.active ≡ true))
        db.camera_profiles

  pub none_active :
      (rows : List CameraProfileRevision)
      → All (λ (r : CameraProfileRevision). in_force mode device_id r ≡ false) rows
      → count (in_force mode device_id) rows ≡ 0
  none_active [] h = refl
  none_active (r ∷ rows) (one, rest) = ground (arith, none_active rows rest)

  -- The last revision and the test that an active row is the last one.
  abbrev IsLast : CameraProfileRevision → CameraProfileRevision → Type 0
  IsLast l r = in_force mode device_id r ≡ true → (r.id ≡ l.id) × (l.active ≡ true)

  updated_inactive :
      (now : ℕ) (l : CameraProfileRevision) (rows : List CameraProfileRevision)
      → All (IsLast l) rows
      → All
          (λ (r : CameraProfileRevision). in_force mode device_id r ≡ false)
          (update
            (λ (row : CameraProfileRevision). row.id == l.id)
            (λ row. record row { active = false; superseded_at = some now })
            rows)
  updated_inactive now l [] h = tt
  updated_inactive now l (r ∷ rows) (one, rest) = (
    if_rule (λ (r : CameraProfileRevision). in_force mode device_id r ≡ false) (r.id == l.id)
        (record r { active = false; superseded_at = some now }) r (λ _. ground arith)
        (λ other. elim (Bool-cases (in_force mode device_id r)) [
          | inl e ↦ (let same = (one e).0 in absurd (ground arith))
          | inr e ↦ e
        ]),
    updated_inactive now l rows rest,
  )

  already_inactive :
      (l : CameraProfileRevision) (rows : List CameraProfileRevision)
      → l.active ≡ false
      → All (IsLast l) rows
      → All (λ (r : CameraProfileRevision). in_force mode device_id r ≡ false) rows
  already_inactive l [] off h = tt
  already_inactive l (r ∷ rows) off (one, rest) = (
    elim (Bool-cases (in_force mode device_id r)) [ inl e ↦ cc ((one e).1, off) | inr e ↦ e ],
    already_inactive l rows off rest,
  )

  superseded :
      (now : ℕ) (l : CameraProfileRevision) (rows : List CameraProfileRevision)
      → All (IsLast l) rows
      → All
          (λ (r : CameraProfileRevision). in_force mode device_id r ≡ false)
          (supersede now (some l) rows)
  unfolding supersede
  superseded now l rows h =
      if_rule (All (λ (r : CameraProfileRevision). in_force mode device_id r ≡ false)) l.active _ _
        (λ _. updated_inactive now l rows h) (λ off. already_inactive l rows off h)

  -- Without a revision in the scope none is active.
  latest-none :
      (rows : List CameraProfileRevision)
      → latest (in_scope mode device_id) rows ≡ none
      → All (λ (r : CameraProfileRevision). in_force mode device_id r ≡ false) rows
  unfolding latest
  latest-none [] h = tt
  latest-none (r ∷ rows) h = elim (Bool-cases (in_scope mode device_id r)) [
    | inl e ↦ cc (rw e at h)
    | inr e ↦ (ground arith, latest-none rows (rw e at h))
  ]

  rows-IsLast :
      (o : Option CameraProfileRevision) (l : CameraProfileRevision)
      (rows : List CameraProfileRevision)
      → o ≡ some l
      → All
          (λ (r : CameraProfileRevision).
            in_force mode device_id r ≡ true
            → (l : CameraProfileRevision) × (o ≡ some l) × (r.id ≡ l.id) × (l.active ≡ true))
          rows
      → All (IsLast l) rows
  rows-IsLast o l [] e h = tt
  rows-IsLast o l (r ∷ rows) e (one, rest) = (
    λ t. (let (l', e', id, on) = one t in let same : l' ≡ l = cc (e, e') in rw⁻¹ same (id, on)),
    rows-IsLast o l rows e rest,
  )

  pub all_superseded :
      (now : ℕ) (db : Db)
      → LastActive db
      → All
          (λ (r : CameraProfileRevision). in_force mode device_id r ≡ false)
          (supersede now (latest (in_scope mode device_id) db.camera_profiles) db.camera_profiles)
  unfolding supersede
  all_superseded now db last =
      elim (Option-cases (latest (in_scope mode device_id) db.camera_profiles)) [
        | inl e ↦ rw e (latest-none db.camera_profiles e)
        | inr (l, e) ↦ rw e (
            superseded now l db.camera_profiles (
              rows-IsLast (latest (in_scope mode device_id) db.camera_profiles) l db.camera_profiles
                e last))
      ]

  pub inactive-LastActive :
      (rows : List CameraProfileRevision) (all : List CameraProfileRevision)
      → All (λ (r : CameraProfileRevision). in_force mode device_id r ≡ false) rows
      → All
          (λ (r : CameraProfileRevision).
            in_force mode device_id r ≡ true
            → (l : CameraProfileRevision) × (latest (in_scope mode device_id) all ≡ some l)
              × (r.id ≡ l.id)
              × (l.active ≡ true))
          rows
  inactive-LastActive [] all h = tt
  inactive-LastActive (r ∷ rows) all (one, rest) =
      (λ t. cc (t, one), inactive-LastActive rows all rest)
