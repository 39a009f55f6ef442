-- ===== src/Workflow/Performed/Completion.antt =====
-- workflows/activities/real.py: `complete_session` and its repetition.
use pages_to_rgb.Prelude.{
  ℕ, String, ◌≡◌, refl, true, false, some, find?, arith, none, find?-replace, find?-replace_both,
  find?-test,
}
use pages_to_rgb.Common.Value.{Fields, end, get}
use pages_to_rgb.Common.Exec.{ok, err, app_error}
use pages_to_rgb.Session.State.{SessionState, completed, allowed, cancelled, ◌≈◌}
use pages_to_rgb.Session.Transition.{transition_session, by_id}
use pages_to_rgb.Session.Laws.{transition_allowed, transition_refused}
use pages_to_rgb.Workflow.Activities.{loaded_session, fenced, is_fenced, step_log, with_public_id}
use pages_to_rgb.Workflow.Activities.Correction.{complete_session, completion}
use pages_to_rgb.Db.{Db, Session}

may_complete : (c : SessionState) → allowed c completed ≡ true → (c ≈ cancelled) ≡ false
unfolding allowed
may_complete c h = ground arith

module _ (public_id : String) (now : ℕ) (db : Db) {s : Session} {current : SessionState}
    (loaded : find? (with_public_id public_id) db.sessions ≡ some s)
    (found : find? (by_id s.id) db.sessions ≡ some s) (status : s.status ≡ some current) where
  completed_row : Session
  completed_row = record s { status = some completed; updated_at = now }

  completes :
      allowed current completed ≡ true
      → (complete_session public_id now db) ≡ (
          (completion public_id
            (ok completed_row, (transition_session s.id completed none "system" end now db).1)))
  unfolding complete_session loaded_session fenced is_fenced completion step_log get completed_row
  completes h = rw loaded (
      rw status (
        rw (may_complete current h)
          (rw (transition_allowed s.id completed none "system" end now db found status h) refl)))

  row_completed :
      allowed current completed ≡ true
      → let after = (transition_session s.id completed none "system" end now db).1 in
        (find? (with_public_id public_id) after.sessions ≡ some completed_row)
        × (find? (by_id s.id) after.sessions ≡ some completed_row)
  unfolding completed_row
  row_completed h = rw (transition_allowed s.id completed none "system" end now db found status h) (
    find?-replace_both (by_id s.id) (with_public_id public_id) db.sessions {c = s} completed_row
        found loaded (find?-test (with_public_id public_id) db.sessions {a = s} loaded),
    find?-replace (by_id s.id) db.sessions {c = s} completed_row found
        (find?-test (by_id s.id) db.sessions {a = s} found),
  )

  -- A session that may be completed is completed, and its row says so. An attempt that comes after it,
  -- such as the retry of an activity whose answer was lost, raises `INVALID_STATE_TRANSITION` and
  -- changes nothing.
  pub complete_session_repeated :
      (later : ℕ)
      → allowed current completed ≡ true
      → let (result, after) = complete_session public_id now db in
        ((out : Fields) × (result ≡ ok out))
        × (find? (with_public_id public_id) after.sessions
            ≡ some (record s { status = some completed; updated_at = now }))
        × (complete_session public_id later after
            ≡ (err (app_error "INVALID_STATE_TRANSITION" 409), after))
  unfolding complete_session loaded_session fenced is_fenced completion step_log get completed_row
      allowed
  complete_session_repeated later h =
      let (seen, kept) = row_completed h in
      let after = (transition_session s.id completed none "system" end now db).1 in
      rw (completes h) (
        (_, refl),
        seen,
        rw seen (
            rw (transition_refused s.id completed none "system" end later after kept refl refl)
              refl),
      )
