-- ===== src/Session/Transition.antt =====
-- `transition_session` of domain/state_machine.py, the one function that writes a session's status,
-- `advance_session_state` of workflows/activities/real.py and `lock_session` of capture/lock.py,
-- which call it.
-- The row that the locked SELECT returns is the table's row at that moment.
use pages_to_rgb.Prelude.{
  ℕ, String, Bool, Option, none, some, find?, update, ◌==◌, str_eq, if◌then◌else◌,
}
use pages_to_rgb.Common.Value.{Value, null, text, Fields, end, field, merge}
use pages_to_rgb.Common.Exec.{Exec, Result, ok, err, app_error, value_error, ◌>>=◌}
use pages_to_rgb.Session.State.{SessionState, capture_locking, locked, name, allowed, ◌≈◌}
use pages_to_rgb.Db.{Db, Session, AuditEvent, add_audit}

abbrev optional_text : Option String → Value
optional_text none = null
optional_text (some s) = text s

abbrev pub invalid_event :
    Session → SessionState → SessionState → Option String → String → AuditEvent
invalid_event s current target reason actor = record {
  session_id = some s.id;
  event_type = "INVALID_TRANSITION";
  stage = "system";
  severity = "error";
  reason_code = some "INVALID_STATE_TRANSITION";
  actor_type = actor;
  payload =
      field "from_state" (text (name current))
        (field "to_state" (text (name target)) (field "reason" (optional_text reason) end));
}

abbrev pub transition_event :
    Session → SessionState → SessionState → Option String → String → Fields → AuditEvent
transition_event s current target reason actor extra = record {
  session_id = some s.id;
  event_type = "STATE_TRANSITION";
  stage = "system";
  severity = "info";
  reason_code = reason;
  actor_type = actor;
  payload =
      merge (field "from_state" (text (name current)) (field "to_state" (text (name target)) end))
        extra;
}

abbrev pub by_id : ℕ → Session → Bool
by_id n s = s.id == n

abbrev pub write_session : Session → Db → Db
write_session s db = record db { sessions = update (by_id s.id) (λ _. s) db.sessions }

-- The part below the lock, by the status that was read; `none` is a text that is no state.
transition_from :
    Session
    → Option SessionState
    → SessionState
    → Option String
    → String
    → Fields
    → ℕ
    → Exec Db Session
transition_from s none target reason actor extra now db = (err value_error, db)
transition_from s (some current) target reason actor extra now db =
    if allowed current target
    then (let s' : Session = record s { status = some target; updated_at = now } in
        (
          ok s',
          add_audit (transition_event s current target reason actor extra) (write_session s' db),
        ))
    else (
      err (app_error "INVALID_STATE_TRANSITION" 409),
      add_audit (invalid_event s current target reason actor) db,
    )

transition_row :
    Option Session → SessionState → Option String → String → Fields → ℕ → Exec Db Session
unfolding transition_from
transition_row none target reason actor extra now db = (err value_error, db)
transition_row (some s) target reason actor extra now db =
    transition_from s s.status target reason actor extra now db

unfoldable pub transition_session :
    ℕ → SessionState → Option String → String → Fields → ℕ → Exec Db Session
unfolding transition_row
transition_session n target reason actor extra now db =
    transition_row (find? (by_id n) db.sessions) target reason actor extra now db

-- `_load_session` raises where the public id is not there.
advance_row : Option Session → Option SessionState → SessionState → ℕ → Exec Db Session
advance_row none current target now db = (err (app_error "SESSION_NOT_FOUND" 404), db)
advance_row (some s) none target now db = (err value_error, db)
advance_row (some s) (some current) target now db =
    if current ≈ target
    then (ok s, db)
    else transition_session s.id target none "system"
        (field "workflow_activity" (text "advance_session_state") end) now db

abbrev status_of : Option Session → Option SessionState
status_of none = none
status_of (some s) = s.status

-- An activity has a unit of work of its own: it is rolled back where an exception leaves it.
commit_or_roll_back : Db → Result Session × Db → Result Session × Db
commit_or_roll_back old (ok s, new) = (ok s, new)
commit_or_roll_back old (err e, new) = (err e, old)

unfoldable pub advance_session_state : String → SessionState → ℕ → Exec Db Session
unfolding advance_row commit_or_roll_back
advance_session_state public_id target now db =
    let row = find? (λ (s : Session). str_eq s.public_id public_id) db.sessions in
    commit_or_roll_back db (advance_row row (status_of row) target now db)

or_else : Option Fields → Fields → Fields
or_else none d = d
or_else (some end) d = d
or_else (some fs) d = fs

unfoldable pub with_snapshots :
    String → Option Fields → Option Fields → String → ℕ → Session → Session
unfolding or_else
with_snapshots end_reason config provider now_text now s = record s {
  config_snapshot = some (or_else config end);
  provider_snapshot = some (or_else provider (field "locked_at" (text now_text) end));
  capture_locked_at = some now;
  end_reason = some end_reason;
}

record_snapshots : String → Option Fields → Option Fields → String → ℕ → Session → Exec Db Session
record_snapshots end_reason config provider now_text now s db =
    let s' = with_snapshots end_reason config provider now_text now s in
    (ok s', write_session s' db)

-- `now_text` is `now.isoformat()`. The commit and the start of the workflow come after it.
unfoldable pub lock_session :
    ℕ → String → Option Fields → Option Fields → String → ℕ → Exec Db Session
unfolding record_snapshots
lock_session n end_reason config provider now_text now = do
  s ←
      transition_session n capture_locking (some "SESSION_LOCKED") "system"
        (field "end_reason" (text end_reason) end) now
  s' ← record_snapshots end_reason config provider now_text now s
  transition_session n locked none "system" end now
