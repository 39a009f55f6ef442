-- ===== src/Workflow/Performed.antt =====
-- The worker: workflows/activities/rgb.py, and which code runs for each activity of the workflow.
-- Every activity has a unit of work of its own.
pub mod Stopped
pub mod Fenced
pub mod Published
pub mod Agreement
pub mod Completion
use pages_to_rgb.Prelude.{ℕ, String, Bool, Option, none, some, List, [], find?}
use pages_to_rgb.Common.Value.{Value, null, flag, num, text, Fields, end, field, get}
use pages_to_rgb.Common.Exec.{Exec, Result, ok, err, unit_of_work}
use pages_to_rgb.Session.State.{SessionState, name}
use pages_to_rgb.Session.Transition.{advance_session_state}
use pages_to_rgb.Rgb.Schemas.{Rgb, RgbSequencePayload, command_name}
use pages_to_rgb.Rgb.Publisher.{RgbSettings, RgbPublicationResult, answer_rows}
use pages_to_rgb.Rgb.Publish.{publish_rgb_for_session, mark_processing_for_session}
use pages_to_rgb.Workflow.Program.{Activity, Reply, Engine}
use pages_to_rgb.Workflow.Gates.{Floats}
use pages_to_rgb.Workflow.Providers.{Secrets}
use pages_to_rgb.Workflow.Activities.{
  with_public_id, validate_locked_session, materialize_logical_pages, preprocess_pages, run_ocr,
  reconstruct_exam, rescue_incomplete_questions, evaluate_gate1, evaluate_gate2,
}
use pages_to_rgb.Workflow.Activities.Correction.{
  emit_pre_correction_status, retrieve_knowledge, solve_questions, verify_questions,
  arbitrate_disagreements, rescue_failed_answers, emit_post_correction_status,
  generate_answer_audio, assemble_final_audio, validate_final_audio, publish_final_audio,
  complete_session,
}
use pages_to_rgb.Db.{Db, Session, Sequence, Delivery, Question, FinalAnswer}

-- What the activities use that is not code of the repository, and the settings.
pub record Platform : Type 0 where
  pub floats : Floats
  pub secrets : Secrets
  pub settings : RgbSettings
  pub uuid_text : ℕ → String
  pub sha256_hex : List ℕ → String
  pub json_size : RgbSequencePayload → ℕ
  pub int_of : Value → Option ℕ
  pub parse_colour : Value → Option Rgb

-- What an execution of an activity finds: the database, the clock, the ids of a new sequence, and the
-- argument of `emit_pre_correction_status`.
pub record Moment : Type 0 where
  pub db : Db
  pub now : ℕ
  pub new_id : ℕ
  pub new_public_id : String
  pub gate1 : Fields

text_of : Option String → Value
text_of none = null
text_of (some s) = text s

sequence_fields : Option Sequence → Fields → Fields
sequence_fields none rest = field "sequence_id" null (field "revision" null rest)
sequence_fields (some q) rest =
    field "sequence_id" (text q.sequence_id) (field "revision" (num q.revision) rest)

unfoldable pub published_fields : String → RgbPublicationResult → Fields
unfolding text_of sequence_fields
published_fields public_id r = field "session_id" (text public_id) (
    field "command" (text (command_name r.command)) (
      sequence_fields r.sequence
        (field "reason_code" (text_of r.reason_code) (field "reused" (flag r.reused) end))))

unfoldable pub answered : {A : Type 0} → (A → Fields) → Result A × Db → Result Fields × Db
answered f (ok a, db) = (ok (f a), db)
answered f (err e, db) = (err e, db)

state_value : Option SessionState → Value
state_value none = null
state_value (some s) = text (name s)

state_before : Option Session → Value
unfolding state_value
state_before none = null
state_before (some s) = state_value s.status

rows_of : Option Session → Db → List (Question × Option FinalAnswer)
rows_of none db = []
rows_of (some s) db = answer_rows s.id db

-- The key that the workflow reads of a result.
key_of : Activity → String
key_of Activity.evaluate_gate1 = "passed"
key_of Activity.evaluate_gate2 = "passed"
key_of Activity.validate_final_audio = "valid"
key_of Activity.publish_final_audio = "published"
key_of Activity.complete_session = "completed"
key_of _ = ""

flag_in : Option Value → Reply
flag_in (some (flag b)) = some b
flag_in _ = none

unfoldable pub reply_of : Activity → Result Fields → Option Reply
unfolding key_of flag_in
reply_of a (ok fields) = some (flag_in (get (key_of a) fields))
reply_of a (err e) = none

module _ (platform : Platform) (public_id : String) where
  abbrev pub processing_fields : Delivery → Fields
  processing_fields d =
      field "session_id" (text public_id) (field "command" (text "RESULT_PROCESSING") end)

  unfoldable pub mark_rgb_result_processing : ℕ → Exec Db Fields
  mark_rgb_result_processing now = unit_of_work (λ db.
      answered processing_fields (mark_processing_for_session platform.uuid_text public_id now db))

  unfoldable pub publish_rgb_result : Moment → Exec Db Fields
  unfolding published_fields rows_of
  publish_rgb_result m = unit_of_work (λ db. answered (published_fields public_id) (
      publish_rgb_for_session platform.uuid_text platform.sha256_hex platform.json_size
        platform.int_of platform.parse_colour platform.settings public_id
        (rows_of (find? (with_public_id public_id) db.sessions) db) m.new_id m.new_public_id m.now
        db))

  unfoldable pub advance : SessionState → ℕ → Exec Db Fields
  unfolding state_before state_value
  advance target now db =
      answered
        (λ (s : Session). field "session_id" (text public_id) (
          field "from_state" (state_before (find? (with_public_id public_id) db.sessions))
            (field "status" (state_value s.status) end)))
        (advance_session_state public_id target now db)

  unfoldable pub perform : Activity → Moment → Exec Db Fields
  unfolding mark_rgb_result_processing publish_rgb_result advance
  perform Activity.mark_rgb_result_processing m = mark_rgb_result_processing m.now
  perform Activity.validate_locked_session m = validate_locked_session public_id
  perform Activity.materialize_logical_pages m = materialize_logical_pages public_id
  perform Activity.preprocess_pages m = preprocess_pages public_id
  perform Activity.run_ocr m = run_ocr public_id platform.secrets
  perform Activity.reconstruct_exam m = reconstruct_exam public_id
  perform Activity.rescue_incomplete_questions m = rescue_incomplete_questions public_id
  perform Activity.evaluate_gate1 m = evaluate_gate1 public_id platform.floats
  perform Activity.emit_pre_correction_status m = emit_pre_correction_status public_id m.gate1
  perform Activity.retrieve_knowledge m = retrieve_knowledge public_id
  perform Activity.solve_questions m = solve_questions public_id platform.floats
  perform Activity.verify_questions m = verify_questions public_id
  perform Activity.arbitrate_disagreements m = arbitrate_disagreements public_id
  perform Activity.rescue_failed_answers m = rescue_failed_answers public_id
  perform Activity.evaluate_gate2 m = evaluate_gate2 public_id platform.floats
  perform Activity.emit_post_correction_status m = emit_post_correction_status public_id
  perform Activity.publish_rgb_result m = publish_rgb_result m
  perform Activity.generate_answer_audio m = generate_answer_audio public_id platform.floats
  perform Activity.assemble_final_audio m = assemble_final_audio public_id
  perform Activity.validate_final_audio m = validate_final_audio public_id
  perform Activity.publish_final_audio m = publish_final_audio public_id platform.floats
  perform Activity.complete_session m = complete_session public_id m.now
  perform (Activity.advance_session_state t) m = advance t m.now

  -- The answers of the worker, by what the decisive attempt of each activity finds: other requests
  -- write to the database between the activities.
  unfoldable pub worker : (Activity → Moment) → Engine
  worker found a = reply_of a (perform a (found a) (found a).db).0
