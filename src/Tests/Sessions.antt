-- ===== src/Tests/Sessions.antt =====
-- Sessions and the workflow on sample data.
use pages_to_rgb.Prelude.{◌≡◌, refl, true, false, none, some, [], ◌∷◌, any}
use pages_to_rgb.Common.Value.{end}
use pages_to_rgb.Common.Exec.{err, app_error}
use pages_to_rgb.Session.State.{
  SessionState, created, locked, gate_2, ready, image_processing, allowed,
}
use pages_to_rgb.Session.Paths.{Path*, every_session_can_end, Ends}
use pages_to_rgb.Session.Transition.{advance_session_state}
use pages_to_rgb.Session.Laws.{status_in, attempts, attempts_follow_table, advance_refused}
use pages_to_rgb.Workflow.Program.{Engine, execute, evaluate_gate1, evaluate_gate2}
use pages_to_rgb.Workflow.ProcessExam.{run}
use pages_to_rgb.Workflow.Guards.{after, exam_follows_table, legal}
use pages_to_rgb.Workflow.Gated.{no_audio_without_gate_2, makes_audio}
use pages_to_rgb.Workflow.Driven.{requests, run_drives_session}
use pages_to_rgb.Tests.Data.{db_in}

every_session_can_end_example : Ends gate_2
every_session_can_end_example = every_session_can_end gate_2

attempts_follow_table_example :
    (t : SessionState) × (status_in
        (attempts 1
          ((image_processing, none, "system", end, 7) ∷ (created, none, "system", end, 8) ∷ [])
          (db_in locked))
        1
      ≡ some t)
    × Path* locked t
attempts_follow_table_example =
    attempts_follow_table 1
      ((image_processing, none, "system", end, 7) ∷ (created, none, "system", end, 8) ∷ [])
      (db_in locked) {c = locked} refl

advance_refused_example :
    advance_session_state "s1" ready 7 (db_in locked)
    ≡ (err (app_error "INVALID_STATE_TRANSITION" 409), db_in locked)
unfolding allowed
advance_refused_example = advance_refused "s1" ready 7 (db_in locked) refl refl refl refl refl

-- An engine in which every activity answers with its flag set, but gate 2 does not pass.
abbrev second_gate_fails : Engine
second_gate_fails evaluate_gate2 = some (some false)
second_gate_fails _ = some (some true)

exam_follows_table_example : legal locked (execute second_gate_fails run).0 ≡ true
exam_follows_table_example = (exam_follows_table second_gate_fails).0

no_audio_without_gate_2_example : any makes_audio (execute second_gate_fails run).0 ≡ false
no_audio_without_gate_2_example = no_audio_without_gate_2 second_gate_fails refl

abbrev first_gate_fails : Engine
first_gate_fails evaluate_gate1 = some none
first_gate_fails _ = some (some true)

run_drives_session_example :
    status_in (attempts 1 (requests 7 (execute second_gate_fails run).0) (db_in locked)) 1
    ≡ some (after locked (execute second_gate_fails run).0)
run_drives_session_example = run_drives_session 1 7 second_gate_fails (db_in locked) refl
