-- ===== src/Tests/Worker.antt =====
-- The worker's activities on sample data.
use pages_to_rgb.Prelude.{◌≡◌, refl, true, false, none, some, [], ◌∷◌, ◌+◌, ◌*◌, ◌/◌, All}
use pages_to_rgb.Common.Value.{num, decimal, end}
use pages_to_rgb.Common.Exec.{err, app_error}
use pages_to_rgb.Session.State.{gate_1, ready, locked, completed, allowed}
use pages_to_rgb.Workflow.Program.{execute}
use pages_to_rgb.Workflow.ProcessExam.{run}
use pages_to_rgb.Workflow.Gates.{Floats}
use pages_to_rgb.Workflow.Activities.{is_fenced}
use pages_to_rgb.Workflow.Activities.Correction.{
  solve_questions, generate_answer_audio, complete_session,
}
use pages_to_rgb.Workflow.Performed.{Platform, Moment, worker}
use pages_to_rgb.Workflow.Performed.Stopped.{Early, worker_stops}
use pages_to_rgb.Workflow.Performed.Agreement.{gate_1_guards, gate_2_guards}
use pages_to_rgb.Workflow.Performed.Completion.{complete_session_repeated}
use pages_to_rgb.Db.{Db}
use pages_to_rgb.Tests.Data.{uuid_text, db_in, session_in}
use pages_to_rgb.Tests.Results.{settings, no_digest, json_size, no_int, no_colour}

-- The least number of thousandths that are as many.
abbrev floats : Floats
floats = record {
  ceil_product = λ n ratio. (n * ratio + 999) / 1000;
  quotient = λ a b. decimal "0.5";
  nought = num 0;
}

abbrev platform : Platform
platform = record {
  floats = floats;
  secrets = record { py_str = λ v. ""; decrypt = λ s. some s };
  settings = settings;
  uuid_text = uuid_text;
  sha256_hex = no_digest;
  json_size = json_size;
  int_of = no_int;
  parse_colour = no_colour;
}

abbrev moment_of : Db → Moment
moment_of db = record { db = db; now = 7; new_id = 8; new_public_id = "rgb-8"; gate1 = end }

worker_stops_example :
    let (log, result) = execute (worker platform "s1" (λ a. moment_of (db_in locked))) run in
    All Early log × (result ≡ none)
worker_stops_example = worker_stops platform "s1" (λ a. moment_of (db_in locked))

-- One of the two questions is ready, and its answer is validated.
abbrev half_ready : Db
half_ready = record (db_in gate_1) {
  questions =
      record { id = 5; session_id = 1; question_number = 1; status = "READY" }
      ∷ record { id = 6; session_id = 1; question_number = 2; status = "INCOMPLETE" }
      ∷ [];
  final_answers = record { question_id = 5; answer = some "A"; validated = true } ∷ [];
}

not_cancelled : is_fenced (some gate_1) ≡ false
unfolding is_fenced
not_cancelled = refl

gate_1_guards_example :
    solve_questions "s1" floats half_ready ≡ (err (app_error "GATE_1_BLOCKED" 409), half_ready)
gate_1_guards_example =
    (gate_1_guards "s1" floats half_ready {s = session_in gate_1} refl not_cancelled).2 refl

gate_2_guards_example :
    generate_answer_audio "s1" floats half_ready
    ≡ (err (app_error "GATE_2_BLOCKED" 409), half_ready)
gate_2_guards_example =
    ((gate_2_guards "s1" floats half_ready {s = session_in gate_1} refl not_cancelled).2 refl).0

ready_completes : allowed ready completed ≡ true
unfolding allowed
ready_completes = refl

complete_session_repeated_example :
    complete_session "s1" 9 (complete_session "s1" 7 (db_in ready)).1
    ≡ (err (app_error "INVALID_STATE_TRANSITION" 409), (complete_session "s1" 7 (db_in ready)).1)
complete_session_repeated_example =
    (complete_session_repeated "s1" 7 (db_in ready) {s = session_in ready} {current = ready} refl
      refl refl 9 ready_completes).2
