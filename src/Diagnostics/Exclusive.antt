-- ===== src/Diagnostics/Exclusive.antt =====
-- camera_diagnostics/service.py: a device has one live diagnostic at most, whatever the operations.
pub mod Steps
use pages_to_rgb.Prelude.{
  ℕ, String, ◌≡◌, ◌≤◌, refl, sym, subst, true, false, Option, none, some, List, [], ◌∷◌, ◌++◌,
  ==_iff, find?, any, count, update, ◌==◌, arith, Bool, not, Bool-cases, if_rule, inl, inr, str_eq,
  find?-none-count, count-append, count-update_le, count-replace_le, any-false-count, find?-test,
}
use pages_to_rgb.Common.Exec.{Result, ok, err, Done}
use pages_to_rgb.Common.Value.{Fields}
use pages_to_rgb.Diagnostics.Lifecycle.{
  DiagnosticRequest, insert_diagnostic, assert_exclusive, new_row, occupies, for_device,
  for_profile, duration_of, duration_ok, for_mode, live_on, with_id, is_stale, create_diagnostic,
  mark_active, stop_diagnostic, fail_diagnostic, expire_stale, expire_row, is_live, accepts_frames,
  write_diagnostic, activate_row, activated as activated_row,
}
use pages_to_rgb.Diagnostics.Limits.{is_terminal_status, limits_for_mode, mode_of, validate_profile}
use pages_to_rgb.Db.{
  Db, Gateway, Device, DiagnosticMode, CameraDiagnostic, DiagnosticStatus, requested, active,
  stopping, completed, failed, expired,
}

-- The keys are unique, and at most one diagnostic of a device is live.
pub record Exclusive (rows : List CameraDiagnostic) : Type 0 where
  pub unique : (n : ℕ) → count (with_id n) rows ≤ 1
  pub one_live : (d : ℕ) → count (live_on d) rows ≤ 1

-- A row replaces the row of its key that was read, of the same device, and is live only if that was.
replace-Exclusive :
    (rows : List CameraDiagnostic) {row : CameraDiagnostic} (row' : CameraDiagnostic)
    → find? (with_id row.id) rows ≡ some row
    → row'.id ≡ row.id
    → ((d : ℕ) → live_on d row' ≡ true → live_on d row ≡ true)
    → Exclusive rows
    → Exclusive (update (with_id row.id) (λ _. row') rows)
replace-Exclusive rows {row} row' found same live inv = record {
  unique = λ n. ground (
    arith,
    inv.unique n,
    count-replace_le (with_id row.id) (with_id n) rows row' (inv.unique row.id) found
        (λ h. subst (λ i. (i == n) ≡ true) same h),
  );
  one_live = λ d. ground (
    arith,
    inv.one_live d,
    count-replace_le (with_id row.id) (live_on d) rows row' (inv.unique row.id) found (live d),
  );
}

live_unless_terminal : (s : DiagnosticStatus) → is_terminal_status s ≡ false → is_live s ≡ true
unfolding is_terminal_status
live_unless_terminal requested h = refl
live_unless_terminal active h = refl
live_unless_terminal stopping h = refl
live_unless_terminal completed h = cc
live_unless_terminal failed h = cc
live_unless_terminal expired h = cc

live_if_accepting : (s : DiagnosticStatus) → accepts_frames s ≡ true → is_live s ≡ true
live_if_accepting requested h = refl
live_if_accepting active h = refl
live_if_accepting stopping h = cc
live_if_accepting completed h = cc
live_if_accepting failed h = cc
live_if_accepting expired h = cc

pub append-Exclusive :
    (rows : List CameraDiagnostic) (row : CameraDiagnostic)
    → find? (with_id row.id) rows ≡ none
    → any (live_on row.device_id) rows ≡ false
    → Exclusive rows
    → Exclusive (rows ++ row ∷ [])
append-Exclusive rows row fresh free inv = record {
  unique = λ n. elim (Bool-cases (row.id == n)) [
    | inl e ↦ ground (
      arith,
      find?-none-count (with_id row.id) rows fresh,
      count-append (with_id n) rows (row ∷ []),
      inv.unique n,
    )
    | inr e ↦ ground (arith, count-append (with_id n) rows (row ∷ []), inv.unique n)
  ];
  one_live = λ d. elim (Bool-cases (row.device_id == d)) [
    | inl e ↦ ground (
      arith,
      any-false-count (live_on row.device_id) rows free,
      count-append (live_on d) rows (row ∷ []),
      inv.one_live d,
    )
    | inr e ↦ ground (arith, count-append (live_on d) rows (row ∷ []), inv.one_live d)
  ];
}

pub found_by_own_id :
    (id : ℕ) (rows : List CameraDiagnostic) {row : CameraDiagnostic}
    → find? (with_id id) rows ≡ some row
    → find? (with_id row.id) rows ≡ some row
found_by_own_id id rows {row} found =
    subst (λ i. find? (with_id i) rows ≡ some row)
      (sym ((==_iff row.id id).0 (find?-test (with_id id) rows {a = row} found))) found

pub activate-Exclusive :
    (id : ℕ) (gateway_code : String) (effective : Option Fields) (db : Db)
    (o : Option CameraDiagnostic)
    → find? (with_id id) db.diagnostics ≡ o
    → Exclusive db.diagnostics
    → Exclusive (activate_row gateway_code effective o db).1.diagnostics
unfolding activate_row write_diagnostic activated_row
activate-Exclusive id gateway_code effective db none found inv = inv
activate-Exclusive id gateway_code effective db (some row) found inv =
    let gateway = find? (λ (g : Gateway). str_eq g.gateway_code gateway_code) db.gateways in
    if_rule (λ (out : Result CameraDiagnostic × Db). Exclusive out.1.diagnostics)
      (accepts_frames row.status) _ _
      (λ h.
        replace-Exclusive db.diagnostics {row = row} (activated_row gateway effective row)
          (found_by_own_id id db.diagnostics {row = row} found) refl
          (λ d live. ground (arith, live_if_accepting row.status h)) inv)
      (λ _. inv)

pub stop-Exclusive :
    (row : CameraDiagnostic) (reason : String) (db : Db)
    → find? (with_id row.id) db.diagnostics ≡ some row
    → Exclusive db.diagnostics
    → Exclusive (stop_diagnostic row reason db).1.diagnostics
unfolding stop_diagnostic write_diagnostic
stop-Exclusive row reason db found inv =
    if_rule (λ (out : Result CameraDiagnostic × Db). Exclusive out.1.diagnostics)
      (is_terminal_status row.status) _ _ (λ _. inv)
      (λ h.
        replace-Exclusive db.diagnostics {row = row}
          (record row { status = stopping; reason = some reason }) found refl
          (λ d live. ground (arith, live_unless_terminal row.status h)) inv)

pub fail-Exclusive :
    (row : CameraDiagnostic) (reason : String) (now : ℕ) (db : Db)
    → find? (with_id row.id) db.diagnostics ≡ some row
    → Exclusive db.diagnostics
    → Exclusive (fail_diagnostic row reason now db).1.diagnostics
unfolding fail_diagnostic write_diagnostic
fail-Exclusive row reason now db found inv =
    if_rule (λ (out : Result CameraDiagnostic × Db). Exclusive out.1.diagnostics)
      (is_terminal_status row.status) _ _ (λ _. inv)
      (λ h.
        replace-Exclusive db.diagnostics {row = row}
          (record row { status = failed; reason = some reason; completed_at = some now }) found refl
          (λ d live. ground (arith, live_unless_terminal row.status h)) inv)

pub expire-Exclusive :
    (now : ℕ) (rows : List CameraDiagnostic)
    → Exclusive rows
    → Exclusive (update (is_stale now) (expire_row now) rows)
unfolding expire_row
expire-Exclusive now rows inv = record {
  unique = λ n. ground (
    arith,
    inv.unique n,
    count-update_le (with_id n) (is_stale now) (expire_row now) rows (λ a s h. h),
  );
  one_live = λ d. ground (
    arith,
    inv.one_live d,
    count-update_le (live_on d) (is_stale now) (expire_row now) rows (λ a s h. ground arith),
  );
}
