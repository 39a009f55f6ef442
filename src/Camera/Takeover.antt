-- ===== src/Camera/Takeover.antt =====
-- camera_profiles/service.py: what `create_profile` leaves in its scope, and the default profile.
use pages_to_rgb.Prelude.{
  ℕ, String, ◌≡◌, ◌≤◌, refl, ap, true, Option, none, some, inl, inr, [], ◌∷◌, ◌++◌, count,
  count-append, All-append, arith, Option-cases,
}
use pages_to_rgb.Common.Exec.{ok}
use pages_to_rgb.Camera.Contract.{default_profile_values}
use pages_to_rgb.Camera.Profiles.{
  in_scope, in_force, latest, active_profile, next_revision, supersede, new_revision,
  create_in_scope, ensure_default_profile, ensure_from,
}
use pages_to_rgb.Camera.Revisions.{
  Below, LastActive, latest-Below, latest-snoc, Below-weaken, supersede-Below, all_superseded,
  inactive-LastActive, same_scope, none_active,
}
use pages_to_rgb.Db.{Db, CameraMode, ProfileValues, CameraProfileRevision}

at_least_one : (o : Option CameraProfileRevision) → 1 ≤ next_revision o
unfolding next_revision
at_least_one none = omega arith
at_least_one (some r) = omega arith

module _ (mode : CameraMode) (device_id : Option ℕ) (uuid_text : ℕ → String) (id now : ℕ)
    (actor : String) (values : ProfileValues) (device_code : Option String) (db : Db) where
  abbrev last : Option CameraProfileRevision
  last = latest (in_scope mode device_id) db.camera_profiles

  abbrev row : CameraProfileRevision
  row = new_revision id device_id mode values actor last

  row_fields :
      (in_scope mode device_id row ≡ true)
      × (row.active ≡ true)
      × (row.revision ≡ next_revision last)
  unfolding new_revision
  row_fields = (same_scope mode device_id, refl, refl)

  row-in_force : in_force mode device_id row ≡ true
  row-in_force =
      let scope = row_fields.0 in let active = row_fields.1 in ground (arith, scope, active)

  below : Below row.revision (in_scope mode device_id) (supersede now last db.camera_profiles)
  below = rw (row_fields.2) (
      supersede-Below mode device_id now (next_revision last) last db.camera_profiles (
        latest-Below (in_scope mode device_id) db.camera_profiles (next_revision last)
          (at_least_one last) (omega arith)))

  pub created_active :
      latest (in_force mode device_id) (supersede now last db.camera_profiles ++ row ∷ [])
      ≡ some row
  created_active =
      latest-snoc (in_force mode device_id) (supersede now last db.camera_profiles) row
        (Below-weaken row.revision (in_scope mode device_id) (in_force mode device_id)
          (supersede now last db.camera_profiles) (λ r h. ground arith) below)
        row-in_force

  created_last :
      latest (in_scope mode device_id) (supersede now last db.camera_profiles ++ row ∷ [])
      ≡ some row
  created_last =
      latest-snoc (in_scope mode device_id) (supersede now last db.camera_profiles) row below
        row_fields.0

  -- A new revision takes over its scope: its number is above those of all the revisions there, the
  -- query for the active profile finds it, and it is the only active one, where the one that was
  -- active before, if any, was the last. That stays so.
  pub create_takes_over :
      LastActive mode device_id db
      → let out = create_in_scope uuid_text id now actor mode device_id values device_code db in
        (out.0 ≡ ok row)
        × Below row.revision (in_scope mode device_id) db.camera_profiles
        × (active_profile mode device_id out.1 ≡ some row)
        × (count (in_force mode device_id) out.1.camera_profiles ≡ 1)
        × LastActive mode device_id out.1
  unfolding create_in_scope active_profile
  create_takes_over last_active =
      let rest = supersede now last db.camera_profiles in
      let inactive = all_superseded mode device_id now db last_active in
      (
        refl,
        rw (row_fields.2) (
            latest-Below (in_scope mode device_id) db.camera_profiles (next_revision last)
              (at_least_one last) (omega arith)),
        created_active,
        (let one = row-in_force in
            let nothing = none_active mode device_id rest inactive in
            let both = count-append (in_force mode device_id) rest (row ∷ []) in ground arith),
        All-append _ rest (row ∷ [])
            (inactive-LastActive mode device_id rest (rest ++ row ∷ []) inactive)
            (λ _. (row, created_last, refl, row_fields.1), tt),
      )

-- The default profile of a mode is made once: a repetition, by anyone and at any time, returns the row
-- that the first call returned and writes nothing.
pub default_made_once :
    (uuid_text : ℕ → String) (id now id' now' : ℕ) (actor actor' : String) (mode : CameraMode)
    (db : Db) (row : CameraProfileRevision)
    → (ensure_default_profile uuid_text id now actor true mode db).0 ≡ ok row
    → let db' = (ensure_default_profile uuid_text id now actor true mode db).1 in
      ensure_default_profile uuid_text id' now' actor' true mode db' ≡ (ok row, db')
unfolding ensure_default_profile ensure_from active_profile create_in_scope
default_made_once uuid_text id now id' now' actor actor' mode db row ran =
    elim (Option-cases (latest (in_force mode none) db.camera_profiles)) [
      | inl e ↦ rw e (
          rw (created_active mode none uuid_text id now actor (default_profile_values mode) none db)
            (ap (λ o. (o, (ensure_from uuid_text id now actor true mode none db).1)) (rw e at ran)))
      | inr (r, e) ↦ rw e (rw e (ap (λ o. (o, db)) (rw e at ran)))
    ]
