-- ===== src/Workflow/Performed/Stopped.antt =====
-- workflows/process_exam.py over workflows/activities/real.py: how far the worker comes.
use pages_to_rgb.Prelude.{
  String, Bool, ◌≡◌, refl, true, false, Option, none, some, List, [], ◌∷◌, ◌++◌, find?, ◌==◌, All,
  if_rule, option_rule,
}
use pages_to_rgb.Common.Value.{Fields, get}
use pages_to_rgb.Common.Exec.{Result, err, Error}
use pages_to_rgb.Session.State.{image_processing}
use pages_to_rgb.Workflow.Program.{
  Activity, Program, Engine, calls, execute, resume, mark_rgb_result_processing,
  validate_locked_session, materialize_logical_pages, advance_session_state,
}
use pages_to_rgb.Workflow.ProcessExam.{ExamResult, run}
use pages_to_rgb.Workflow.Activities.{
  loaded_session, fenced, is_fenced, step_log, frames_of, captures_of, with_public_id,
  materialize_logical_pages as materialize,
}
use pages_to_rgb.Workflow.Performed.{Platform, Moment, perform, reply_of, worker}
use pages_to_rgb.Db.{Db, Session}

-- An activity that raises changes nothing.
abbrev Raises : Db → Result Fields × Db → Type 0
Raises db out = (e : Error) × (out ≡ (err e, db))

session-Raises :
    (public_id : String) (o : Option Session) (db : Db)
    → find? (with_public_id public_id) db.sessions ≡ o
    → Raises db (materialize public_id db)
unfolding materialize loaded_session fenced step_log frames_of captures_of get
session-Raises public_id none db found = rw found (_, refl)
session-Raises public_id (some s) db found = rw found (
    if_rule (λ (out : Result Fields × Db). (e : Error) × (out ≡ (err e, db))) (is_fenced s.status) _
      _ (λ _. (_, refl))
      (λ _.
        if_rule (λ (out : Result Fields × Db). (e : Error) × (out ≡ (err e, db)))
          (frames_of s.id db == 0) _ _ (λ _. (_, refl)) (λ _. (_, refl))))

-- Whatever the database holds, `materialize_logical_pages` raises.
materialize-Raises : (public_id : String) (db : Db) → Raises db (materialize public_id db)
materialize-Raises public_id db =
    session-Raises public_id (find? (with_public_id public_id) db.sessions) db refl

-- The activities up to `materialize_logical_pages`.
abbrev pub early : Activity → Bool
early mark_rgb_result_processing = true
early validate_locked_session = true
early materialize_logical_pages = true
early (advance_session_state image_processing) = true
early _ = false

abbrev pub Early : Activity → Type 0
Early a = early a ≡ true

-- A list of activities of which one raises.
calls-stop :
    (engine : Engine) (before : List Activity) (a : Activity) (rest : List Activity)
    (p : Program ExamResult)
    → engine a ≡ none
    → All Early before
    → Early a
    → let (log, result) = execute engine (calls (before ++ a ∷ rest) p) in
      All Early log × (result ≡ none)
unfolding execute calls resume
calls-stop engine [] a rest p raises early_before early_a = rw raises ((early_a, tt), refl)
calls-stop engine (b ∷ before) a rest p raises early_before early_a =
    option_rule
      (λ o.
        let (log, result) = resume b o (λ r. execute engine (calls (before ++ a ∷ rest) p)) in
        All Early log × (result ≡ none))
      (engine b) (λ _. ((early_before.0, tt), refl))
      (λ r _.
        let (log, result) = calls-stop engine before a rest p raises early_before.1 early_a in
        ((early_before.0, log), result))

materialize-none :
    (platform : Platform) (public_id : String) (found : Activity → Moment)
    → worker platform public_id found materialize_logical_pages ≡ none
unfolding worker reply_of perform
materialize-none platform public_id found =
    let (e, raised) = materialize-Raises public_id (found materialize_logical_pages).db in
    rw raised refl

-- No run of the workflow by the worker returns: whatever each activity finds in the database, the run
-- raises, it has executed no activity after `materialize_logical_pages`, and the only state that it has
-- asked for is `IMAGE_PROCESSING`.
pub worker_stops :
    (platform : Platform) (public_id : String) (found : Activity → Moment)
    → let (log, result) = execute (worker platform public_id found) run in
      All Early log × (result ≡ none)
unfolding run
worker_stops platform public_id found =
    calls-stop (worker platform public_id found)
      (mark_rgb_result_processing
        ∷ validate_locked_session
        ∷ advance_session_state image_processing
        ∷ [])
      materialize_logical_pages _ _ (materialize-none platform public_id found)
      (refl, (refl, (refl, tt))) refl
