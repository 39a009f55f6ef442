-- ===== src/Workflow/Driven.antt =====
-- The workflow and the state machine together: what the transitions that a run of
-- workflows/process_exam.py asks for make of the row of its session.
use pages_to_rgb.Prelude.{ℕ, ◌≡◌, true, none, some, List, [], ◌∷◌, Bool-cases, inl, inr}
use pages_to_rgb.Common.Value.{end, field, text}
use pages_to_rgb.Session.State.{SessionState, completed, locked, allowed}
use pages_to_rgb.Session.Transition.{transition_session}
use pages_to_rgb.Session.Laws.{Attempt, attempts, status_in, status_found, transition_moves}
use pages_to_rgb.Workflow.Program.{
  Activity, Engine, advance_session_state, complete_session, execute,
}
use pages_to_rgb.Workflow.ProcessExam.{run}
use pages_to_rgb.Workflow.Guards.{legal, may, target, after, exam_follows_table}
use pages_to_rgb.Db.{Db}

-- The call of `transition_session` for a target, by the activities that make one.
abbrev moved_by_advance : ℕ → SessionState → Attempt
moved_by_advance now t =
    (t, none, "system", field "workflow_activity" (text "advance_session_state") end, now)

abbrev moved_by_completion : ℕ → Attempt
moved_by_completion now = (completed, none, "system", end, now)

-- The calls of a list of activities.
unfoldable pub requests : ℕ → List Activity → List Attempt
requests now [] = []
requests now (advance_session_state t ∷ rest) = moved_by_advance now t ∷ requests now rest
requests now (complete_session ∷ rest) = moved_by_completion now ∷ requests now rest
requests now (_ ∷ rest) = requests now rest

module _ (n now : ℕ) where
  one_call :
      (db : Db) {s : SessionState} (a : Attempt)
      → status_in db n ≡ some s
      → allowed s a.0 ≡ true
      → status_in (transition_session n a.0 a.1 a.2 a.3 a.4 db).1 n ≡ some a.0
  one_call db (t, reason, actor, extra, at) h ok =
      let (row, found, status) = status_found db n h in
      elim (transition_moves n t reason actor extra at db found status).0 [
        | inl (_, e) ↦ e
        | inr (no_way, _) ↦ cc (ok, no_way)
      ]

  legal_tail :
      (s : SessionState) (a : Activity) (rest : List Activity)
      → legal s (a ∷ rest) ≡ true
      → (may s a ≡ true) × (legal (target s a) rest ≡ true)
  unfolding legal
  legal_tail s a rest h = elim (Bool-cases (may s a)) [
    | inl e ↦ (e, rw e at h)
    | inr e ↦ cc (rw e at h)
  ]

  driven :
      (log : List Activity) (s : SessionState) (db : Db)
      → status_in db n ≡ some s
      → legal s log ≡ true
      → status_in (attempts n (requests now log) db) n ≡ some (after s log)
  unfolding requests attempts after target may
  driven [] s db h l = h
  driven (advance_session_state t ∷ rest) s db h l =
      let (ok, tail) = legal_tail s (advance_session_state t) rest l in
      driven rest t _ (one_call db (moved_by_advance now t) h ok) tail
  driven (complete_session ∷ rest) s db h l =
      let (ok, tail) = legal_tail s complete_session rest l in
      driven rest completed _ (one_call db (moved_by_completion now) h ok) tail
  driven (a ∷ rest) s db h l = driven rest s db h (legal_tail s a rest l).1

  -- The workflow and the state machine fit together: for a session that is `LOCKED`, and whatever
  -- the engine answers, the transitions that the run's activities ask for are all carried out, and
  -- the row has the status that the run ends with.
  pub run_drives_session :
      (engine : Engine) (db : Db)
      → status_in db n ≡ some locked
      → let log = (execute engine run).0 in
        status_in (attempts n (requests now log) db) n ≡ some (after locked log)
  run_drives_session engine db h =
      driven (execute engine run).0 locked db h (exam_follows_table engine).0
