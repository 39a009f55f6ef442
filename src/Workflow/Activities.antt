-- ===== src/Workflow/Activities.antt =====
-- workflows/activities/real.py: the activities of the workflow, each in a unit of work of its own. An
-- activity ends with `_step_log`, which takes the public id of the session as its argument
-- `session_id`; the records that it writes are left out.
pub mod Correction
use pages_to_rgb.Prelude.{
  ℕ, String, Bool, true, false, not, ◌&&◌, Option, none, some, List, [], ◌∷◌, find?, count, any,
  ◌==◌, str_eq, if◌then◌else◌,
}
use pages_to_rgb.Common.Value.{Value, flag, num, text, arr, nil, Fields, end, field, get}
use pages_to_rgb.Common.Exec.{Exec, Result, ok, err, app_error, value_error, raised, unit_of_work}
use pages_to_rgb.Session.State.{
  SessionState, created, capturing, capture_end_candidate, capture_locking, cancelled, completed,
  name, ◌≈◌,
}
use pages_to_rgb.Session.Transition.{transition_session}
use pages_to_rgb.Workflow.Gates.{Floats, GateResult, evaluate_gate_1, evaluate_gate_2}
use pages_to_rgb.Workflow.Providers.{Secrets, Providers, providers_for_snapshot}
use pages_to_rgb.Db.{Db, Session, Question, FinalAnswer, Frame, Capture}

abbrev pub with_public_id : String → Session → Bool
with_public_id public_id s = str_eq s.public_id public_id

-- `_cancel_fence`; a text that is no state passes.
unfoldable pub is_fenced : Option SessionState → Bool
is_fenced none = false
is_fenced (some s) = s ≈ cancelled

-- The function that logs has parameters named `step`, `session_id` and `started`, which get their
-- arguments by position: a keyword of one of these names is a `TypeError`.
unfoldable pub step_log : Fields → Fields → Exec Db Fields
step_log result extra db = elim (get "session_id" extra) [
  | none ↦ (ok result, db)
  | some v ↦ (err raised, db)
]

unfoldable pub questions_with : String → ℕ → Db → ℕ
questions_with status session_id db =
    count (λ (q : Question). q.session_id == session_id && str_eq q.status status) db.questions

unfoldable pub validated_answers : ℕ → Db → ℕ
validated_answers session_id db =
    count
      (λ (a : FinalAnswer).
        a.validated
        && any (λ (q : Question). q.id == a.question_id && q.session_id == session_id) db.questions)
      db.final_answers

unfoldable pub frames_of : ℕ → Db → ℕ
frames_of session_id db = count (λ (f : Frame). f.session_id == session_id) db.frames

unfoldable pub captures_of : ℕ → Db → ℕ
captures_of session_id db = count (λ (c : Capture). c.session_id == session_id) db.captures

unfoldable pub is_unlocked : SessionState → Bool
is_unlocked created = true
is_unlocked capturing = true
is_unlocked capture_end_candidate = true
is_unlocked capture_locking = true
is_unlocked _ = false

module _ (public_id : String) where
  -- The result of an activity, with the id of the session.
  abbrev pub result : Fields → Fields
  result fields = field "session_id" (text public_id) fields

  unfoldable pub fenced : (Session → Exec Db Fields) → Option Session → Exec Db Fields
  fenced body none db = (err (app_error "SESSION_NOT_FOUND" 404), db)
  fenced body (some s) db =
      let after = body s db in
      if is_fenced s.status then (err (app_error "SESSION_CANCELLED" 409), db) else after

  -- `_load_session` and `_cancel_fence`
  unfoldable pub loaded_session : (Session → Exec Db Fields) → Exec Db Fields
  unfolding fenced
  loaded_session body db = fenced body (find? (with_public_id public_id) db.sessions) db

  locked_state : Option SessionState → Exec Db Fields
  locked_state none db = (err value_error, db)
  locked_state (some state) db =
      if is_unlocked state
      then (err (app_error "INVALID_STATE_TRANSITION" 409), db)
      else step_log (field "status" (text "ok") (result (field "state" (text (name state)) end)))
          (field "state" (text (name state)) end) db

  unfoldable pub validate_locked_session : Exec Db Fields
  unfolding locked_state
  validate_locked_session = loaded_session λ s. locked_state s.status

  -- The whole result is passed on as keywords.
  unfoldable pub materialize_logical_pages : Exec Db Fields
  unfolding frames_of captures_of
  materialize_logical_pages = loaded_session λ s db.
      let counts = result (
        field "frames" (num (frames_of s.id db))
          (field "captures" (num (captures_of s.id db)) end)) in
      if frames_of s.id db == 0
      then (err (app_error "CAPTURE_INCOMPLETE" 409), db)
      else step_log counts counts db

  unfoldable pub preprocess_pages : Exec Db Fields
  unfolding frames_of
  preprocess_pages = loaded_session λ s db.
      if frames_of s.id db == 0
      then (err (app_error "CAPTURE_INCOMPLETE" 409), db)
      else step_log
          (result (
            field "frames" (num (frames_of s.id db)) (
              field "applied" (arr nil)
                (field "skipped" (arr nil) (field "failed" (arr nil) end)))))
          (field "frames" (num (frames_of s.id db)) end) db

  unfoldable pub reconstruct_exam : Exec Db Fields
  reconstruct_exam = loaded_session λ s db.
      let discovered = count (λ (q : Question). q.session_id == s.id) db.questions in
      step_log
        (result (field "questions_discovered" (num discovered) (field "incomplete" (num 0) end)))
        (field "discovered" (num discovered) end) db

  unfoldable pub rescue_incomplete_questions : Exec Db Fields
  rescue_incomplete_questions = loaded_session λ s db.
      let incomplete = questions_with "INCOMPLETE" s.id db in
      step_log (result (field "incomplete" (num incomplete) (field "rescued" (num 0) end)))
        (field "incomplete" (num incomplete) end) db

  module _ (secrets : Secrets) where
    with_providers : Option Providers → Session → Exec Db Fields
    unfolding frames_of
    with_providers none s db = (err (app_error "OCR_PROVIDER_AUTH_ERROR" 500), db)
    with_providers (some p) s db =
        step_log (result (field "frames" (num (frames_of s.id db)) (field "ocr_runs" (num 0) end)))
          (field "frames" (num (frames_of s.id db)) end) db

    unfoldable pub run_ocr : Exec Db Fields
    unfolding with_providers
    run_ocr = loaded_session λ s db.
        with_providers (providers_for_snapshot secrets s.config_snapshot db.admin_settings) s db

  module _ (floats : Floats) where
    unfoldable pub gate_1_of : Session → Db → GateResult
    gate_1_of s db =
        evaluate_gate_1 floats (questions_with "READY" s.id db) s.expected_questions s.minimum_ratio

    unfoldable pub gate_2_of : Session → Db → GateResult
    gate_2_of s db =
        evaluate_gate_2 floats (validated_answers s.id db) s.expected_questions s.minimum_ratio

    unfoldable pub evaluate_gate1 : Exec Db Fields
    evaluate_gate1 = loaded_session λ s db.
        let gate = gate_1_of s db in
        step_log
          (result (
            field "passed" (flag gate.passed) (
              field "ready" (num gate.ready)
                (field "required" (num gate.required) (field "ratio" gate.ratio end)))))
          (field "passed" (flag gate.passed) (field "ready" (num gate.ready) end)) db

    unfoldable pub gate_2_result : GateResult → Fields
    gate_2_result gate = result (
        field "passed" (flag gate.passed) (
          field "validated" (num gate.ready)
            (field "required" (num gate.required) (field "ratio" gate.ratio end))))

    unfoldable pub evaluate_gate2 : Exec Db Fields
    unfolding gate_2_result
    evaluate_gate2 = loaded_session λ s db.
        let gate = gate_2_of s db in
        step_log (gate_2_result gate) (field "passed" (flag gate.passed) end) db
