-- ===== src/Gateway/EndSignal.antt =====
-- apps/api/routers/gateway.py: `end_signal`, which locks a session and records the intention to
-- process it in one transaction.
pub mod Walk
pub mod Locked
pub mod Ends
use pages_to_rgb.Prelude.{
  ℕ, String, Bool, true, false, Option, none, some, [], find?, ◌==◌, str_eq, if◌then◌else◌,
}
use pages_to_rgb.Common.Value.{text, Fields, end, field}
use pages_to_rgb.Common.Exec.{Exec, Result, ok, err, app_error, Done, done, ◌>>=◌, unit_of_work}
use pages_to_rgb.Session.State.{
  SessionState, capturing, capture_end_candidate, capture_locking, locked, is_terminal, ◌≈◌,
}
use pages_to_rgb.Session.Transition.{transition_session, write_session}
use pages_to_rgb.Rgb.Delivery.Binding.{SessionBinding}
use pages_to_rgb.Rgb.Delivery.Result.{mark_result_processing}
use pages_to_rgb.Capture.Outbox.{enqueue_workflow_intent}
use pages_to_rgb.Gateway.Binding.{get_session}
use pages_to_rgb.Db.{Db, Session, Device, Gateway}

-- The answer: the status of the session, and which of the two flags it carries.
pub data EndReply : Type 0 where
  already_terminal : Option SessionState → EndReply
  is_locked : Option SessionState → EndReply

end_payload : Fields
end_payload = field "end_signal" (text "manual") end

abbrev is_in : Session → SessionState → Bool
is_in s state = elim s.status [ none ↦ false | some current ↦ current ≈ state ]

-- One step of the walk, from the state in which it applies.
unfoldable pub move : SessionState → SessionState → ℕ → Session → Exec Db Session
unfolding end_payload
move source target now s db =
    if is_in s source
    then transition_session s.id target none "gateway" end_payload now db
    else (ok s, db)

unfoldable pub stamp : ℕ → Session → Exec Db Session
stamp now s db =
    let s' : Session = record s { capture_locked_at = some now } in
    if is_in s capture_locking then (ok s', write_session s' db) else (ok s, db)

unfoldable pub lock_steps : ℕ → Session → Exec Db Session
lock_steps now s = do s' ← stamp now s; move capture_locking locked now s'

unfoldable pub walk : ℕ → Session → Exec Db Session
walk now s = do
  s₁ ← move capturing capture_end_candidate now s
  s₂ ← move capture_end_candidate capture_locking now s₁
  lock_steps now s₂

-- `mark_result_processing`, whose exception is only logged.
mark_with : (ℕ → String) → Session → Device → Option Gateway → ℕ → Db → Db
mark_with uuid_text s d none now db = db
mark_with uuid_text s d (some g) now db =
    (mark_result_processing uuid_text (record { session = s; device = d; gateway = g }) now db).1

unfoldable pub mark_processing : (ℕ → String) → String → Session → Device → ℕ → Db → Db
unfolding mark_with
mark_processing uuid_text gateway_id s d now db =
    mark_with uuid_text s d (find? (λ (g : Gateway). str_eq g.gateway_code gateway_id) db.gateways)
      now db

-- The intention is stored, or the request fails.
with_intent : Session → Result Done × Db → Result EndReply × Db
with_intent s (ok _, db) = (ok (is_locked s.status), db)
with_intent s (err e, db) = (err (app_error "INTERNAL" 500), db)

intent : Bool → Session → Exec Db Done
intent outbox_fails s = do
  row ← enqueue_workflow_intent outbox_fails s.id s.public_id
  λ db. (ok done, db)

unfoldable pub finish_end :
    (ℕ → String) → Bool → String → Device → ℕ → Result Session × Db → Result EndReply × Db
unfolding with_intent intent
finish_end uuid_text outbox_fails gateway_id d now (err e, db) = (err e, db)
finish_end uuid_text outbox_fails gateway_id d now (ok s, db) =
    with_intent s (intent outbox_fails s (mark_processing uuid_text gateway_id s d now db))

end_from :
    (ℕ → String) → Bool → String → ℕ → Session → Device → Option SessionState → Exec Db EndReply
end_from uuid_text outbox_fails gateway_id now s d none db = (err (app_error "CONFLICT" 409), db)
end_from uuid_text outbox_fails gateway_id now s d (some current) db =
    if is_terminal current
    then (ok (already_terminal s.status), db)
    else if current ≈ locked
    then (ok (is_locked s.status), mark_processing uuid_text gateway_id s d now db)
    else finish_end uuid_text outbox_fails gateway_id d now (walk now s db)

unfoldable pub end_request : (ℕ → String) → Bool → String → ℕ → Session × Device → Exec Db EndReply
unfolding end_from
end_request uuid_text outbox_fails gateway_id now (s, d) =
    end_from uuid_text outbox_fails gateway_id now s d s.status

unfoldable pub end_signal : (ℕ → String) → Bool → String → String → ℕ → Exec Db EndReply
end_signal uuid_text outbox_fails gateway_id session_id now = unit_of_work (λ db.
    (get_session gateway_id session_id >>= λ found.
    end_request uuid_text outbox_fails gateway_id now found)
      db)
