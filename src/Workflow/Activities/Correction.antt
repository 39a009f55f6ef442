-- ===== src/Workflow/Activities/Correction.antt =====
-- workflows/activities/real.py: the activities after the first gate. Where the exception of
-- `transition_session` is turned into another, the audit event before it is rolled back as well.
use pages_to_rgb.Prelude.{ℕ, String, Bool, true, false, Option, none, some, if◌then◌else◌}
use pages_to_rgb.Common.Value.{Value, flag, num, text, Fields, end, field, get}
use pages_to_rgb.Common.Exec.{Exec, Result, ok, err, app_error, ◌>>=◌, unit_of_work}
use pages_to_rgb.Session.State.{SessionState, completed, name}
use pages_to_rgb.Session.Transition.{transition_session}
use pages_to_rgb.Workflow.Gates.{Floats}
use pages_to_rgb.Workflow.Activities.{
  result, loaded_session, step_log, questions_with, gate_1_of, evaluate_gate2,
}
use pages_to_rgb.Db.{Db, Session}

-- `bool(gate.get("passed", False))`, and `gate["passed"]` of a gate that was evaluated
unfoldable pub passed_in : Fields → Bool
passed_in gate = elim (get "passed" gate) [ some (flag b) ↦ b | _ ↦ false ]

abbrev pub status_text : Option SessionState → Value
status_text none = text ""
status_text (some s) = text (name s)

module _ (public_id : String) where
  unfoldable pub emit_pre_correction_status : Fields → Exec Db Fields
  emit_pre_correction_status gate1 =
      step_log (result public_id (field "gate1_passed" (flag (passed_in gate1)) end)) end

  -- An activity that reads its session and answers with a constant.
  unfoldable pub constant_activity : Fields → Exec Db Fields
  constant_activity fields = loaded_session public_id λ s. step_log (result public_id fields) end

  unfoldable pub retrieve_knowledge : Exec Db Fields
  unfolding constant_activity
  retrieve_knowledge = constant_activity (field "retrieved" (num 0) end)

  unfoldable pub verify_questions : Exec Db Fields
  unfolding constant_activity
  verify_questions = constant_activity (field "verified" (num 0) end)

  unfoldable pub arbitrate_disagreements : Exec Db Fields
  unfolding constant_activity
  arbitrate_disagreements = constant_activity (field "arbitrated" (num 0) end)

  unfoldable pub rescue_failed_answers : Exec Db Fields
  rescue_failed_answers = loaded_session public_id λ s db.
      let failed = questions_with "FAILED" s.id db in
      step_log (result public_id (field "failed" (num failed) (field "rescued" (num 0) end)))
        (field "failed" (num failed) end) db

  unfoldable pub emit_post_correction_status : Exec Db Fields
  emit_post_correction_status = step_log (result public_id (field "emitted" (flag true) end)) end

  unfoldable pub assemble_final_audio : Exec Db Fields
  unfolding constant_activity
  assemble_final_audio = constant_activity (field "assembled" (flag false) end)

  unfoldable pub validate_final_audio : Exec Db Fields
  unfolding constant_activity
  validate_final_audio = constant_activity (field "valid" (flag false) end)

  unfoldable pub completion : Result Session × Db → Result Fields × Db
  completion (ok s, db) =
      step_log
        (result public_id
          (field "completed" (flag true) (field "status" (status_text s.status) end)))
        end db
  completion (err e, db) = (err (app_error "INVALID_STATE_TRANSITION" 409), db)

  unfoldable pub complete_session : ℕ → Exec Db Fields
  unfolding completion
  complete_session now = unit_of_work (
      loaded_session public_id
        λ s db. completion (transition_session s.id completed none "system" end now db))

  module _ (floats : Floats) where
    unfoldable pub solve_questions : Exec Db Fields
    solve_questions = loaded_session public_id λ s db.
        if (gate_1_of public_id floats s db).passed
        then step_log (result public_id (field "solved" (num 0) end)) end db
        else (err (app_error "GATE_1_BLOCKED" 409), db)

    -- The second gate is evaluated by the activity that evaluates it, in a unit of work of its own.
    unfoldable pub behind_gate_2 : Fields → Exec Db Fields
    behind_gate_2 fields = loaded_session public_id λ s. evaluate_gate2 public_id floats >>= λ gate.
        if passed_in gate
        then step_log (result public_id fields) end
        else (λ db. (err (app_error "GATE_2_BLOCKED" 409), db))

    unfoldable pub generate_answer_audio : Exec Db Fields
    unfolding behind_gate_2
    generate_answer_audio = behind_gate_2 (field "generated" (num 0) end)

    unfoldable pub publish_final_audio : Exec Db Fields
    unfolding behind_gate_2
    publish_final_audio = behind_gate_2 (field "published" (flag false) end)
