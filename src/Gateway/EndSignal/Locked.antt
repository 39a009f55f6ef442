-- ===== src/Gateway/EndSignal/Locked.antt =====
-- apps/api/routers/gateway.py: what `end_signal` leaves, and what a repetition does.
use pages_to_rgb.Prelude.{
  ℕ, String, ◌≡◌, ◌≤◌, refl, true, false, Bool, Option, none, some, find?, count, str_eq, arith,
}
use pages_to_rgb.Common.Exec.{Result, ok, err, done, continue, settle}
use pages_to_rgb.Session.State.{SessionState, locked, is_terminal, ◌≈◌}
use pages_to_rgb.Rgb.Delivery.Untouched.{Untouched, Quiet, mark_result_processing-Quiet}
use pages_to_rgb.Capture.Upload.Flow.{is_open}
use pages_to_rgb.Capture.Outbox.{intent_of, enqueue_workflow_intent}
use pages_to_rgb.Capture.Outbox.Enqueued.{Enqueued, enqueue-Enqueued}
use pages_to_rgb.Gateway.Binding.{bound_to, device_of, get_session, check_session, check_device}
use pages_to_rgb.Gateway.EndSignal.{
  EndReply, is_locked, mark_with, mark_processing, with_intent, intent, finish_end, end_from,
  end_request, end_signal, walk,
}
use pages_to_rgb.Gateway.EndSignal.Walk.{Stable, Row, Reached, walk-Reached}
use pages_to_rgb.Db.{Db, Session, Device, Gateway, WorkflowOutbox}

mark_with-Quiet :
    (uuid_text : ℕ → String) (s : Session) (d : Device) (o : Option Gateway) (now : ℕ) (db : Db)
    → Quiet db (mark_with uuid_text s d o now db)
unfolding mark_with
mark_with-Quiet uuid_text s d none now db = (refl, (refl, refl, refl, refl, refl))
mark_with-Quiet uuid_text s d (some g) now db =
    mark_result_processing-Quiet uuid_text (record { session = s; device = d; gateway = g }) now db

pub mark_processing-Quiet :
    (uuid_text : ℕ → String) (gateway_id : String) (s : Session) (d : Device) (now : ℕ) (db : Db)
    → Quiet db (mark_processing uuid_text gateway_id s d now db)
unfolding mark_processing
mark_processing-Quiet uuid_text gateway_id s d now db =
    mark_with-Quiet uuid_text s d
      (find? (λ (g : Gateway). str_eq g.gateway_code gateway_id) db.gateways) now db

open_is_not_closed :
    (state : SessionState)
    → is_open state ≡ true
    → (is_terminal state ≡ false) × ((state ≈ locked) ≡ false)
unfolding is_open is_terminal
open_is_not_closed state h = ground arith

pub get_session-found :
    (gateway_id session_id : String) (db : Db) {s : Session} {d : Device}
    → find? (bound_to gateway_id session_id db) db.sessions ≡ some s
    → device_of s db ≡ some d
    → d.enabled ≡ true
    → get_session gateway_id session_id db ≡ (ok (s, d), db)
unfolding get_session check_session check_device
get_session-found gateway_id session_id db found device enabled =
    rw found (rw device (rw enabled refl))

module _ (uuid_text : ℕ → String) (gateway_id : String) (d : Device) (now : ℕ) where
  -- The request after the walk: the answer, the session's row, the captures and the frames, and the
  -- row of the outbox.
  abbrev pub Ended : (Session → Bool) → Session → Db → Result EndReply × Db → Type 0
  Ended q s old out =
      (out.0 ≡ ok (is_locked s.status))
      × Row q out.1 s
      × (out.1.captures ≡ old.captures)
      × (out.1.frames ≡ old.frames)
      × (out.1.gateways ≡ old.gateways)
      × (out.1.devices ≡ old.devices)
      × ((row : WorkflowOutbox) × (find? (intent_of s.id) out.1.outbox ≡ some row))
      × (count (intent_of s.id) old.outbox ≤ 1 → count (intent_of s.id) out.1.outbox ≤ 1)

  with_intent-Ended :
      (q : Session → Bool) (s : Session) (old db : Db) (out : Result WorkflowOutbox × Db)
      → Quiet old db
      → Row q old s
      → Enqueued s.id db out
      → Ended q s old (with_intent s (continue out.0 (λ row db. (ok done, db)) out.1))
  unfolding with_intent
  with_intent-Ended q s old db out (sessions, (devices, gateways, captures, frames, outbox)) row
        (intent_row, rows, e, there, _, one) =
      rw e (
        refl,
        rw sessions row,
        captures,
        frames,
        gateways,
        devices,
        (intent_row, there),
        λ h. one (rw outbox h),
      )

  finish_end-Ended :
      (q : Session → Bool) (s : Session) (db : Db)
      → Row q db s
      → Ended q s db (finish_end uuid_text false gateway_id d now (ok s, db))
  unfolding finish_end intent
  finish_end-Ended q s db row =
      let marked = mark_processing uuid_text gateway_id s d now db in
      with_intent-Ended q s db marked (enqueue_workflow_intent false s.id s.public_id marked)
        (mark_processing-Quiet uuid_text gateway_id s d now db) row
        (enqueue-Enqueued s.id s.public_id marked)

  -- The walk and the rest of the request, from a state of a capture.
  abbrev pub Locks : (Session → Bool) → Session → Db → Result EndReply × Db → Type 0
  Locks q s old out =
      (s' : Session) × (s'.status ≡ some locked)
      × (s'.capture_locked_at ≡ some now)
      × (s'.id ≡ s.id)
      × (w : Db) × Untouched old w
      × Ended q s' w out

  finish-Locks :
      (q : Session → Bool) (s : Session) (db : Db) (out : Result Session × Db)
      → Reached q db s out locked (some now)
      → Locks q s db (finish_end uuid_text false gateway_id d now out)
  finish-Locks q s db out (s', w, e, row, status, stamped, id, _, same) =
      rw e (s', status, stamped, id, w, same, finish_end-Ended q s' w row)

  end_from-Locks :
      (q : Session → Bool) (s : Session) (db : Db) (o : Option SessionState) (state : SessionState)
      → Stable q
      → Row q db s
      → o ≡ some state
      → s.status ≡ some state
      → is_open state ≡ true
      → Locks q s db (end_from uuid_text false gateway_id now s d o db)
  unfolding end_from
  end_from-Locks q s db o state stable row e status open_state =
      let (running, unlocked) = open_is_not_closed state open_state in
      rw e (
        rw running (
          rw unlocked (
            finish-Locks q s db (walk now s db)
              (walk-Reached q stable now s db state row status open_state))))

settle-Locks :
    (uuid_text : ℕ → String) (gateway_id : String) (d : Device) (now : ℕ) (q : Session → Bool)
    (s : Session) (db : Db) (out : Result EndReply × Db)
    → Locks uuid_text gateway_id d now q s db out
    → Locks uuid_text gateway_id d now q s db (settle db out)
settle-Locks uuid_text gateway_id d now q s db (ok a, db') h = h
settle-Locks uuid_text gateway_id d now q s db (err e, db')
      (s', status, stamped, id, w, same, ended) =
    cc ended.0

module _ (uuid_text : ℕ → String) (gateway_id session_id : String) (now : ℕ) (db : Db) {s : Session}
    {d : Device} {state : SessionState}
    (found : find? (bound_to gateway_id session_id db) db.sessions ≡ some s)
    (device : device_of s db ≡ some d) (enabled : d.enabled ≡ true) (status : s.status ≡ some state)
    (open_state : is_open state ≡ true) where
  pub end_signal-Locks :
      (q : Session → Bool)
      → Stable q
      → Row q db s
      → Locks uuid_text gateway_id d now q s db
          (end_signal uuid_text false gateway_id session_id now db)
  unfolding end_signal end_request
  end_signal-Locks q stable row =
      rw (get_session-found gateway_id session_id db found device enabled) (
        settle-Locks uuid_text gateway_id d now q s db
          (end_from uuid_text false gateway_id now s d s.status db)
          (end_from-Locks uuid_text gateway_id d now q s db s.status state stable row status status
            open_state))
