-- ===== src/Workflow/ProcessExam.antt =====
-- workflows/process_exam.py: `ProcessExamWorkflow.run`, all twenty steps in their order.
use pages_to_rgb.Prelude.{Bool, true, false, not, [], ◌∷◌, Option, none, some, if◌then◌else◌}
use pages_to_rgb.Session.State.{
  SessionState, image_processing, ocr_processing, reconstructing, gate_1, gate_2, rag_retrieving,
  blocked_gate_1, blocked_gate_2, solving, verifying, arbitrating, status_audio, tts_generating,
  audio_assembling, audio_validating, failed_recoverable, ready,
}
use pages_to_rgb.Workflow.Program.{
  Program, done, call, calls, get_flag, mark_rgb_result_processing, validate_locked_session,
  materialize_logical_pages, preprocess_pages, run_ocr, reconstruct_exam,
  rescue_incomplete_questions, evaluate_gate1, emit_pre_correction_status, retrieve_knowledge,
  solve_questions, verify_questions, arbitrate_disagreements, rescue_failed_answers, evaluate_gate2,
  emit_post_correction_status, publish_rgb_result, generate_answer_audio, assemble_final_audio,
  validate_final_audio, publish_final_audio, complete_session, advance_session_state,
}

-- The dictionary that the workflow returns, with the status of the two early returns.
pub data Status : Type 0 where
  audio_validation_failed : Status
  audio_publication_failed : Status

pub record ExamResult : Type 0 where
  pub gate1_passed : Bool
  pub gate2_passed : Bool
  pub completed : Bool
  pub status : Option Status

-- Step 20.
unfoldable pub finish : Bool → Bool → Program ExamResult
finish gate1 gate2 = call complete_session (λ final. done record {
  gate1_passed = gate1;
  gate2_passed = gate2;
  completed = get_flag final;
  status = none;
})

early_return : Bool → Bool → Status → Program ExamResult
early_return gate1 gate2 status =
    done
      record { gate1_passed = gate1; gate2_passed = gate2; completed = false; status = some status }

-- After the validation of the audio and after its publication.
unfoldable pub published : Bool → Bool → Bool → Program ExamResult
unfolding early_return
published gate1 gate2 true = finish gate1 gate2
published gate1 gate2 false = early_return gate1 gate2 audio_publication_failed

unfoldable pub validated : Bool → Bool → Bool → Program ExamResult
unfolding early_return
validated gate1 gate2 false =
    calls (advance_session_state failed_recoverable ∷ [])
      (early_return gate1 gate2 audio_validation_failed)
validated gate1 gate2 true =
    calls (advance_session_state ready ∷ [])
      (call publish_final_audio (λ publication. published gate1 gate2 (get_flag publication)))

-- Steps 16 to 20, by `gate2_passed`.
unfoldable pub audio_pipeline : Bool → Bool → Program ExamResult
audio_pipeline gate1 false = finish gate1 false
audio_pipeline gate1 true =
    calls
      (generate_answer_audio
        ∷ advance_session_state audio_assembling
        ∷ assemble_final_audio
        ∷ advance_session_state audio_validating
        ∷ [])
      (call validate_final_audio (λ validation. validated gate1 true (get_flag validation)))

status_target : Bool → Bool → SessionState
status_target gate1 gate2 =
    if not gate1 then status_audio else if not gate2 then status_audio else tts_generating

-- Step 15 and what follows it, for either way that the first gate went.
unfoldable pub after_correction : Bool → Bool → Program ExamResult
unfolding status_target
after_correction gate1 gate2 =
    calls
      (emit_post_correction_status
        ∷ advance_session_state (status_target gate1 gate2)
        ∷ publish_rgb_result
        ∷ [])
      (audio_pipeline gate1 gate2)

gate_2_target : Bool → SessionState
gate_2_target gate2 = if gate2 then status_audio else blocked_gate_2

-- Steps 9 to 14, by `gate1_passed`.
unfoldable pub correction : Bool → Program ExamResult
unfolding gate_2_target
correction false = after_correction false false
correction true =
    calls
      (retrieve_knowledge
        ∷ advance_session_state solving
        ∷ solve_questions
        ∷ advance_session_state verifying
        ∷ verify_questions
        ∷ advance_session_state arbitrating
        ∷ arbitrate_disagreements
        ∷ advance_session_state gate_2
        ∷ rescue_failed_answers
        ∷ [])
      (call evaluate_gate2 (λ gate2_result.
        let gate2 = get_flag gate2_result in
        calls (advance_session_state (gate_2_target gate2) ∷ []) (after_correction true gate2)))

gate_1_target : Bool → SessionState
gate_1_target gate1 = if gate1 then rag_retrieving else blocked_gate_1

unfoldable pub run : Program ExamResult
unfolding gate_1_target
run =
    calls
      (mark_rgb_result_processing
        ∷ validate_locked_session
        ∷ advance_session_state image_processing
        ∷ materialize_logical_pages
        ∷ preprocess_pages
        ∷ advance_session_state ocr_processing
        ∷ run_ocr
        ∷ advance_session_state reconstructing
        ∷ reconstruct_exam
        ∷ rescue_incomplete_questions
        ∷ advance_session_state gate_1
        ∷ [])
      (call evaluate_gate1 (λ gate1_result.
        let gate1 = get_flag gate1_result in
        calls (advance_session_state (gate_1_target gate1) ∷ emit_pre_correction_status ∷ [])
          (correction gate1)))
