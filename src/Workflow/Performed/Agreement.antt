-- ===== src/Workflow/Performed/Agreement.antt =====
-- workflows/activities/real.py: the gates before the work that they guard.
use pages_to_rgb.Prelude.{
  ℕ, String, Bool, ◌≡◌, refl, true, false, some, find?, leb, count, any, ◌&&◌, ◌==◌, str_eq,
  if_rule, if◌then◌else◌,
}
use pages_to_rgb.Common.Value.{Fields, get, field, num, flag, end}
use pages_to_rgb.Common.Exec.{Exec, ok, err, app_error, ◌>>=◌}
use pages_to_rgb.Workflow.Program.{Activity}
use pages_to_rgb.Workflow.Gates.{Floats, evaluate_gate_1, evaluate_gate_2}
use pages_to_rgb.Workflow.Activities.{
  result, loaded_session, fenced, is_fenced, step_log, with_public_id, questions_with,
  validated_answers, gate_1_of, gate_2_of, gate_2_result, evaluate_gate1, evaluate_gate2,
}
use pages_to_rgb.Workflow.Activities.Correction.{
  solve_questions, behind_gate_2, generate_answer_audio, publish_final_audio, passed_in,
}
use pages_to_rgb.Workflow.Performed.{reply_of}
use pages_to_rgb.Db.{Db, Session, Question, FinalAnswer}

module _ (public_id : String) (floats : Floats) (db : Db) {s : Session}
    (found : find? (with_public_id public_id) db.sessions ≡ some s)
    (processed : is_fenced s.status ≡ false) where
  -- The numbers that the gates compare.
  abbrev pub enough : ℕ → Bool
  enough n = leb (floats.ceil_product s.expected_questions s.minimum_ratio) n

  -- The questions of the session that are `READY`, and the validated answers to its questions.
  abbrev pub ready_questions : ℕ
  ready_questions =
      count (λ (q : Question). q.session_id == s.id && str_eq q.status "READY") db.questions

  abbrev pub good_answers : ℕ
  good_answers =
      count
        (λ (a : FinalAnswer).
          a.validated
          && any (λ (q : Question). q.id == a.question_id && q.session_id == s.id) db.questions)
        db.final_answers

  -- On the same database, and for a session that is not cancelled, the first gate answers that it has
  -- passed if the questions that are `READY` are as many as it asks for, and that it has not if they
  -- are fewer; the solver runs in the first case, which answers that it has solved 0, and in the second
  -- it raises `GATE_1_BLOCKED` and changes nothing.
  pub gate_1_guards :
      (reply_of Activity.evaluate_gate1 (evaluate_gate1 public_id floats db).0
        ≡ some (some (enough (ready_questions))))
      × (enough (ready_questions) ≡ true
          → solve_questions public_id floats db
            ≡ (ok (result public_id (field "solved" (num 0) end)), db))
      × (enough (ready_questions) ≡ false
          → solve_questions public_id floats db ≡ (err (app_error "GATE_1_BLOCKED" 409), db))
  unfolding evaluate_gate1 solve_questions loaded_session fenced gate_1_of questions_with
      evaluate_gate_1 step_log get reply_of
  gate_1_guards = (
    rw found (rw processed refl),
    λ h. rw found (rw processed (rw h refl)),
    λ h. rw found (rw processed (rw h refl)),
  )

  evaluated :
      evaluate_gate2 public_id floats db
      ≡ (ok (gate_2_result public_id floats (gate_2_of public_id floats s db)), db)
  unfolding evaluate_gate2 loaded_session fenced step_log get
  evaluated = rw found (rw processed refl)

  behind :
      (fields : Fields)
      → behind_gate_2 public_id floats fields db ≡ (
          if enough (good_answers)
          then (ok (result public_id fields), db)
          else (err (app_error "GATE_2_BLOCKED" 409), db))
  unfolding behind_gate_2 loaded_session fenced step_log get passed_in gate_2_of validated_answers
      evaluate_gate_2 gate_2_result
  behind fields = rw found (
      rw processed (
        rw (evaluated, ◌>>=◌)
          (if_rule
            (λ (k : Exec Db Fields). k db ≡ (
              if enough (good_answers)
              then (ok (result public_id fields), db)
              else (err (app_error "GATE_2_BLOCKED" 409), db)))
            (enough (good_answers)) _ _ (λ h. rw h refl) (λ h. rw h refl))))

  -- On the same database, and for a session that is not cancelled, the second gate answers that it has
  -- passed if the validated answers to the session's questions are as many as it asks for, and that it
  -- has not if they are fewer. In the first case the activities `generate_answer_audio` and
  -- `publish_final_audio` return and change nothing: the one answers that it has generated 0, the other
  -- that it has not published. In the second case each of the two raises `GATE_2_BLOCKED` and changes
  -- nothing.
  pub gate_2_guards :
      (reply_of Activity.evaluate_gate2 (evaluate_gate2 public_id floats db).0
        ≡ some (some (enough (good_answers))))
      × (enough (good_answers) ≡ true
          → (generate_answer_audio public_id floats db
              ≡ (ok (result public_id (field "generated" (num 0) end)), db))
            × (publish_final_audio public_id floats db
                ≡ (ok (result public_id (field "published" (flag false) end)), db)))
      × (enough (good_answers) ≡ false
          → (generate_answer_audio public_id floats db ≡ (err (app_error "GATE_2_BLOCKED" 409), db))
            × (publish_final_audio public_id floats db
                ≡ (err (app_error "GATE_2_BLOCKED" 409), db)))
  unfolding evaluate_gate2 generate_answer_audio publish_final_audio behind_gate_2 loaded_session
      fenced gate_2_of validated_answers evaluate_gate_2 step_log get reply_of passed_in
      gate_2_result
  gate_2_guards = (
    rw evaluated refl,
    λ h. (rw (behind _) (rw h refl), rw (behind _) (rw h refl)),
    λ h. (rw (behind _) (rw h refl), rw (behind _) (rw h refl)),
  )
