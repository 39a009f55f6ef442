-- ===== src/Diagnostics/Exclusive/Steps.antt =====
-- camera_diagnostics/service.py: the calls of the service, one after another.
use pages_to_rgb.Prelude.{
  ℕ, String, ◌≡◌, refl, Option, none, some, find?, any, Bool, not, Bool-cases, if_rule, inl, inr,
  str_eq,
}
use pages_to_rgb.Common.Exec.{Result, ok, err}
use pages_to_rgb.Common.Value.{Fields}
use pages_to_rgb.Diagnostics.Lifecycle.{
  DiagnosticRequest, insert_diagnostic, assert_exclusive, new_row, occupies, for_device,
  for_profile, duration_of, duration_ok, for_mode, live_on, with_id, create_diagnostic, mark_active,
  stop_diagnostic, fail_diagnostic, expire_stale,
}
use pages_to_rgb.Diagnostics.Exclusive.{
  Exclusive, append-Exclusive, activate-Exclusive, stop-Exclusive, fail-Exclusive, expire-Exclusive,
}
use pages_to_rgb.Diagnostics.Limits.{limits_for_mode, mode_of, validate_profile}
use pages_to_rgb.Db.{Db, Device, DiagnosticMode, CameraDiagnostic}

module _ (upper : String → String) (is_valid_esp_id : String → Bool) (id : ℕ)
    (diagnostic_id : String) (now : ℕ) (r : DiagnosticRequest) (db : Db)
    (fresh : find? (with_id id) db.diagnostics ≡ none) (inv : Exclusive db.diagnostics) where
  Kept : Result CameraDiagnostic × Db → Type 0
  Kept out = Exclusive out.1.diagnostics

  insert-Exclusive :
      (d : Device) (mode : DiagnosticMode) (profile : Fields) (dur : ℕ)
      → Kept (
          insert_diagnostic upper is_valid_esp_id id diagnostic_id now r d mode profile dur
            (assert_exclusive d.id db))
  unfolding Kept insert_diagnostic assert_exclusive new_row
  insert-Exclusive d mode profile dur = elim (Bool-cases (any (live_on d.id) db.diagnostics)) [
    | inl e ↦ rw e inv
    | inr e ↦ rw e (
        if_rule
          (λ o.
            Kept
              (insert_diagnostic upper is_valid_esp_id id diagnostic_id now r d mode profile dur o))
          (any (occupies d.id) db.sessions) _ _ (λ _. inv)
          (λ _.
            append-Exclusive db.diagnostics
              (new_row id diagnostic_id now d mode profile dur r.created_by) fresh e inv))
  ]

  device-Exclusive :
      (mode : DiagnosticMode) (profile : Fields) (dur : ℕ) (o : Option Device)
      → Kept (for_device upper is_valid_esp_id id diagnostic_id now r mode profile dur o db)
  unfolding Kept for_device
  device-Exclusive mode profile dur none = inv
  device-Exclusive mode profile dur (some d) =
      if_rule Kept (not d.enabled) _ _ (λ _. inv) (λ _. insert-Exclusive d mode profile dur)

  profile-Exclusive :
      (mode : DiagnosticMode) (p : Result Fields)
      → Kept (for_profile upper is_valid_esp_id id diagnostic_id now r mode p db)
  unfolding Kept for_profile duration_of
  profile-Exclusive mode (err e) = inv
  profile-Exclusive mode (ok profile) =
      let dur = duration_of r.duration_s (limits_for_mode mode).duration_limit_s in
      if_rule Kept (duration_ok mode dur) _ _
        (λ _.
          device-Exclusive mode profile dur
            (find? (λ (d : Device). str_eq d.device_code r.device_code) db.devices))
        (λ _. inv)

  mode-Exclusive :
      (o : Option DiagnosticMode)
      → Kept (for_mode upper is_valid_esp_id id diagnostic_id now r o db)
  unfolding Kept for_mode
  mode-Exclusive none = inv
  mode-Exclusive (some mode) =
      if_rule Kept (not (is_valid_esp_id r.device_code)) _ _ (λ _. inv)
        (λ _. profile-Exclusive mode (validate_profile upper r.resolution r.jpeg_quality))

  create-Exclusive :
      (enabled : Bool)
      → Kept (create_diagnostic upper is_valid_esp_id id diagnostic_id now r enabled db)
  unfolding Kept create_diagnostic
  create-Exclusive enabled =
      if_rule Kept (not enabled) _ _ (λ _. inv) (λ _. mode-Exclusive (mode_of r.mode))

-- One call of the service. A new row has a key that no row has; the row that is stopped or failed is
-- the stored one.
pub data Step : Db → Db → Type 0 where
  created :
      (upper : String → String) (is_valid_esp_id : String → Bool) (id : ℕ) (diagnostic_id : String)
      (now : ℕ) (r : DiagnosticRequest) (enabled : Bool) (db : Db)
      → find? (with_id id) db.diagnostics ≡ none
      → Step db (create_diagnostic upper is_valid_esp_id id diagnostic_id now r enabled db).1
  activated :
      (id : ℕ) (gateway_code : String) (effective : Option Fields) (db : Db)
      → Step db (mark_active id gateway_code effective db).1
  stopped :
      (row : CameraDiagnostic) (reason : String) (db : Db)
      → find? (with_id row.id) db.diagnostics ≡ some row
      → Step db (stop_diagnostic row reason db).1
  broken :
      (row : CameraDiagnostic) (reason : String) (now : ℕ) (db : Db)
      → find? (with_id row.id) db.diagnostics ≡ some row
      → Step db (fail_diagnostic row reason now db).1
  swept : (now : ℕ) (db : Db) → Step db (expire_stale now db).1

-- Every call that creates, activates, stops, fails or expires diagnostics keeps this: the keys are
-- unique, and no device has two live diagnostics (`REQUESTED`, `ACTIVE` or `STOPPING`). A new row has
-- a key that no row has, and a row that is stopped or failed is the stored row of its key.
pub step-Exclusive :
    (before after : Db)
    → Step before after
    → Exclusive before.diagnostics
    → Exclusive after.diagnostics
unfolding mark_active expire_stale Kept
step-Exclusive db _ (created upper is_valid id diagnostic_id now r enabled _ fresh) inv =
    create-Exclusive upper is_valid id diagnostic_id now r db fresh inv enabled
step-Exclusive db _ (activated id gateway_code effective _) inv =
    activate-Exclusive id gateway_code effective db (find? (with_id id) db.diagnostics) refl inv
step-Exclusive db _ (stopped row reason _ found) inv = stop-Exclusive row reason db found inv
step-Exclusive db _ (broken row reason now _ found) inv = fail-Exclusive row reason now db found inv
step-Exclusive db _ (swept now _) inv = expire-Exclusive now db.diagnostics inv
