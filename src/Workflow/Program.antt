-- ===== src/Workflow/Program.antt =====
-- Workflow code as a tree: it asks the engine to execute an activity and goes on with the answer.
-- An activity that still fails after its retries raises, which ends the workflow.
use pages_to_rgb.Prelude.{Bool, false, List, [], ◌∷◌, Option, none, some}
use pages_to_rgb.Session.State.{SessionState}

pub data Activity : Type 0 where
  mark_rgb_result_processing : Activity
  validate_locked_session : Activity
  materialize_logical_pages : Activity
  preprocess_pages : Activity
  run_ocr : Activity
  reconstruct_exam : Activity
  rescue_incomplete_questions : Activity
  evaluate_gate1 : Activity
  emit_pre_correction_status : Activity
  retrieve_knowledge : Activity
  solve_questions : Activity
  verify_questions : Activity
  arbitrate_disagreements : Activity
  rescue_failed_answers : Activity
  evaluate_gate2 : Activity
  emit_post_correction_status : Activity
  publish_rgb_result : Activity
  generate_answer_audio : Activity
  assemble_final_audio : Activity
  validate_final_audio : Activity
  publish_final_audio : Activity
  complete_session : Activity
  advance_session_state : SessionState → Activity

-- The part of an activity's result that the workflow reads: a flag under a key, if it is there.
abbrev pub Reply : Type 0
Reply = Option Bool

-- `result.get(key, False)`
abbrev pub get_flag : Reply → Bool
get_flag none = false
get_flag (some b) = b

pub data Program (A : Type 0) : Type 0 where
  done : A → Program A
  call : Activity → (Reply → Program A) → Program A

-- A run of activities whose results are not read.
unfoldable pub calls : {A : Type 0} → List Activity → Program A → Program A
calls [] p = p
calls (a ∷ rest) p = call a (λ _. calls rest p)

-- What the engine answers, `none` for an activity that raises. No run executes an activity twice.
abbrev pub Engine : Type 0
Engine = Activity → Option Reply

unfoldable pub resume :
    {A : Type 0}
    → Activity
    → Option Reply
    → (Reply → List Activity × Option A)
    → List Activity × Option A
resume a none k = (a ∷ [], none)
resume a (some r) k = let (log, result) = k r in (a ∷ log, result)

-- The activities that a run executes, in order, and its result, `none` if it raised.
unfoldable pub execute : {A : Type 0} → Engine → Program A → List Activity × Option A
execute engine (done a) = ([], some a)
execute engine (call a k) = resume a (engine a) (λ r. execute engine (k r))
