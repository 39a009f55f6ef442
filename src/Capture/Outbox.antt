-- ===== src/Capture/Outbox.antt =====
-- capture/dispatcher.py: the outbox of workflow starts. The rows are in the order of their creation,
-- and `start` is whether Temporal accepts a start, with the first 500 characters of the exception where it does not.
pub mod Enqueued
use pages_to_rgb.Prelude.{
  ℕ, String, Bool, true, false, ◌||◌, Option, none, some, List, [], ◌∷◌, ◌++◌, find?, select,
  update, take, ◌==◌, ◌+◌, ◌<>◌, if◌then◌else◌,
}
use pages_to_rgb.Common.Exec.{Exec, Result, ok, err, raised}
use pages_to_rgb.Db.{Db, WorkflowOutbox, OutboxStatus, pending, dispatched, failed}

unfoldable pub workflow_id_for : String → String
workflow_id_for session_public_id = "process-exam-" <> session_public_id

abbrev pub intent_of : ℕ → WorkflowOutbox → Bool
intent_of session_id row = row.session_id == session_id

unfoldable pub new_intent : ℕ → String → WorkflowOutbox
unfolding workflow_id_for
new_intent session_id session_public_id = record {
  session_id = session_id;
  workflow_id = workflow_id_for session_public_id;
  status = pending;
  attempts = 0;
  last_error = none;
  dispatched_at = none;
}

enqueue_row : Bool → ℕ → String → Option WorkflowOutbox → Exec Db WorkflowOutbox
enqueue_row flush_fails session_id session_public_id (some row) db = (ok row, db)
enqueue_row flush_fails session_id session_public_id none db =
    let row = new_intent session_id session_public_id in
    let db' : Db = record db { outbox = db.outbox ++ row ∷ [] } in
    if flush_fails then (err raised, db') else (ok row, db')

unfoldable pub enqueue_workflow_intent : Bool → ℕ → String → Exec Db WorkflowOutbox
unfolding enqueue_row
enqueue_workflow_intent flush_fails session_id session_public_id db =
    enqueue_row flush_fails session_id session_public_id (find? (intent_of session_id) db.outbox) db

-- `status.in_(["PENDING", "FAILED"])`
abbrev pub is_waiting : WorkflowOutbox → Bool
is_waiting row = elim row.status [ pending ↦ true | dispatched ↦ false | failed ↦ true ]

-- `none` is a start that succeeds.
unfoldable pub attempted : ℕ → Option String → WorkflowOutbox → WorkflowOutbox
attempted now none row = record row { status = dispatched; dispatched_at = some now }
attempted now (some e) row = record row {
  status = failed;
  attempts = row.attempts + 1;
  last_error = some e;
}

write_row : WorkflowOutbox → Db → Db
write_row row db = record db { outbox = update (intent_of row.session_id) (λ _. row) db.outbox }

unfoldable pub dispatch_rows :
    (String → Option String) → ℕ → List WorkflowOutbox → ℕ × ℕ → Db → (ℕ × ℕ) × Db
unfolding attempted write_row
dispatch_rows start now [] counts db = (counts, db)
dispatch_rows start now (row ∷ rest) (sent, refused) db =
    let db' = write_row (attempted now (start row.workflow_id) row) db in
    dispatch_rows start now rest
      (elim (start row.workflow_id) [ none ↦ (sent + 1, refused) | some e ↦ (sent, refused + 1) ])
      db'

-- The counts of the starts that succeeded and of those that failed.
unfoldable pub dispatch_pending : (String → Option String) → ℕ → ℕ → Db → (ℕ × ℕ) × Db
dispatch_pending start now limit db =
    dispatch_rows start now (take limit (select is_waiting db.outbox)) (0, 0) db
