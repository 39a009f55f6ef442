-- ===== src/Gateway/EndSignal/Ends.antt =====
-- apps/api/routers/gateway.py and capture/frame_upload.py: the end of a capture, its repetition, and
-- the uploads that come after it.
use pages_to_rgb.Prelude.{
  ℕ, String, ◌≡◌, ◌≤◌, refl, ap, ◌∙◌, true, false, Bool, Option, some, List, find?, count,
  find?-test,
}
use pages_to_rgb.Common.Exec.{ok}
use pages_to_rgb.Session.State.{SessionState, locked, is_terminal}
use pages_to_rgb.Session.Transition.{by_id}
use pages_to_rgb.Capture.Storage.{StoredObject}
use pages_to_rgb.Capture.Upload.Request.{FrameUploadRequest, Library}
use pages_to_rgb.Capture.Upload.Flow.{World, Surroundings, is_open, by_public_id}
use pages_to_rgb.Capture.Upload.Service.{upload_frame}
use pages_to_rgb.Capture.Upload.Service.Closed.{closed_takes_nothing}
use pages_to_rgb.Capture.Outbox.{intent_of}
use pages_to_rgb.Gateway.Binding.{bound_to, device_of}
use pages_to_rgb.Gateway.EndSignal.{is_locked, end_signal, end_request, end_from, mark_processing}
use pages_to_rgb.Gateway.EndSignal.Locked.{
  end_signal-Locks, mark_processing-Quiet, get_session-found,
}
use pages_to_rgb.Db.{Db, Session, Device, WorkflowOutbox}

is_locked_closed : is_open locked ≡ false
unfolding is_open
is_locked_closed = refl

module _ (uuid_text : ℕ → String) (gateway_id session_id : String) (now : ℕ) (db : Db) {s : Session}
    {d : Device} {state : SessionState}
    (found : find? (bound_to gateway_id session_id db) db.sessions ≡ some s)
    (keyed : find? (by_id s.id) db.sessions ≡ some s) (device : device_of s db ≡ some d)
    (enabled : d.enabled ≡ true) (status : s.status ≡ some state)
    (open_state : is_open state ≡ true) where
  -- The signal that ends a capture, from each of the three states of a capture: the answer is that the
  -- session is locked, the session's row is `LOCKED` with the time of the lock, and the outbox holds
  -- the intention to process it, once if it held at most one before. The captures and the frames are
  -- untouched. The outbox must accept the row.
  pub end_signal_locks :
      count (intent_of s.id) db.outbox ≤ 1
      → let out = end_signal uuid_text false gateway_id session_id now db in
        (out.0 ≡ ok (is_locked (some locked)))
        × ((s' : Session) × (find? (by_id s.id) out.1.sessions ≡ some s')
            × (s'.status ≡ some locked)
            × (s'.capture_locked_at ≡ some now))
        × ((row : WorkflowOutbox) × (find? (intent_of s.id) out.1.outbox ≡ some row))
        × (count (intent_of s.id) out.1.outbox ≤ 1)
        × (out.1.captures ≡ db.captures)
        × (out.1.frames ≡ db.frames)
  end_signal_locks one =
      let (s', locked_status, stamped, id, w, (_, _, captures, frames, outbox), ended) =
        end_signal-Locks uuid_text gateway_id session_id now db found device enabled status
          open_state (bound_to gateway_id session_id db) (λ _ _ _ _ h. h)
          (keyed, found, find?-test _ db.sessions found) in
      rw⁻¹ id (
        ended.0 ∙ ap (λ o. ok (is_locked o)) locked_status,
        (s', ended.1.0, locked_status, stamped),
        ended.6,
        ended.7 (rw outbox (rw id one)),
        ended.2 ∙ captures,
        ended.3 ∙ frames,
      )

  -- From the moment the signal is answered, no upload to the session writes anything: no frame, no
  -- capture and no object, whatever the request.
  pub uploads_end :
      find? (by_public_id session_id) db.sessions ≡ some s
      → (lib : Library) (r : FrameUploadRequest) (around : Surroundings)
        (objects : List StoredObject)
      → r.session_id ≡ session_id
      → let w : World = record {
        db = (end_signal uuid_text false gateway_id session_id now db).1;
        objects = objects;
      } in
        (upload_frame lib r around w).1 ≡ w
  uploads_end public lib r around objects same_session =
      let (s', locked_status, _, _, _, _, ended) =
        end_signal-Locks uuid_text gateway_id session_id now db found device enabled status
          open_state (by_public_id session_id) (λ _ _ _ _ h. h)
          (keyed, public, find?-test (by_public_id session_id) db.sessions public) in
      let there : find? (by_public_id r.session_id)
            (end_signal uuid_text false gateway_id session_id now db).1.sessions
          ≡ some s' =
        rw same_session ended.1.1 in
      closed_takes_nothing lib r around
        (record {
          db = (end_signal uuid_text false gateway_id session_id now db).1;
          objects = objects;
        })
        there locked_status is_locked_closed

module _ (uuid_text : ℕ → String) (gateway_id session_id : String) (now : ℕ) (db : Db) {s : Session}
    {d : Device} (outbox_fails : Bool)
    (found : find? (bound_to gateway_id session_id db) db.sessions ≡ some s)
    (device : device_of s db ≡ some d) (enabled : d.enabled ≡ true) where
  end_from-locked :
      (o : Option SessionState)
      → o ≡ some locked
      → end_from uuid_text outbox_fails gateway_id now s d o db
        ≡ (ok (is_locked s.status), mark_processing uuid_text gateway_id s d now db)
  unfolding end_from is_terminal
  end_from-locked o e = rw e refl

  -- The signal for a session that is locked already gets the same answer, whether or not the outbox
  -- accepts rows, and changes no session, no capture, no frame and no row of the outbox.
  pub end_signal_repeated :
      s.status ≡ some locked
      → let out = end_signal uuid_text outbox_fails gateway_id session_id now db in
        (out.0 ≡ ok (is_locked (some locked)))
        × (out.1.sessions ≡ db.sessions)
        × (out.1.captures ≡ db.captures)
        × (out.1.frames ≡ db.frames)
        × (out.1.outbox ≡ db.outbox)
  unfolding end_signal end_request
  end_signal_repeated status =
      let (sessions, (_, _, captures, frames, outbox)) =
        mark_processing-Quiet uuid_text gateway_id s d now db in
      rw (get_session-found gateway_id session_id db found device enabled) (
        rw (end_from-locked s.status status)
          (ap (λ o. ok (is_locked o)) status, sessions, captures, frames, outbox))
