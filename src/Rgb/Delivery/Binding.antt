-- ===== src/Rgb/Delivery/Binding.antt =====
-- rgb/delivery.py: the binding of a session to its device and gateway, and the result command that
-- a session's state implies before there is a delivery row.
use pages_to_rgb.Prelude.{
  ℕ, String, Bool, true, false, ◌&&◌, Option, none, some, find?, ◌==◌, str_eq, if◌then◌else◌,
}
use pages_to_rgb.Common.Exec.{Exec, ok, err, app_error}
use pages_to_rgb.Session.State.{
  SessionState, created, capturing, capture_end_candidate, capture_locking, locked, blocked_gate_1,
  blocked_gate_2, failed_fatal, cancelled, ready, completed,
}
use pages_to_rgb.Rgb.Schemas.{
  RgbResultCommand, result_not_started, result_processing, result_cancelled,
}
use pages_to_rgb.Db.{Db, Session, Device, Gateway}

pub record SessionBinding : Type 0 where
  pub session : Session
  pub device : Device
  pub gateway : Gateway

-- `_NOT_STARTED_STATES`
unfoldable pub is_not_started : SessionState → Bool
is_not_started created = true
is_not_started capturing = true
is_not_started capture_end_candidate = true
is_not_started capture_locking = true
is_not_started locked = true
is_not_started _ = false

-- `_CANCELLED_STATES`
unfoldable pub is_cancelled_state : SessionState → Bool
is_cancelled_state blocked_gate_1 = true
is_cancelled_state blocked_gate_2 = true
is_cancelled_state failed_fatal = true
is_cancelled_state cancelled = true
is_cancelled_state _ = false

-- `SessionState.READY, SessionState.COMPLETED`
unfoldable pub is_finished_state : SessionState → Bool
is_finished_state ready = true
is_finished_state completed = true
is_finished_state _ = false

is_none : Option ℕ → Bool
is_none none = true
is_none (some n) = false

-- `_PROCESSING_STATES` and the rest get the same answer.
unfoldable pub derive_command : Session → RgbResultCommand
unfolding is_not_started is_cancelled_state is_finished_state is_none
derive_command session = from_status session.status
  where
    from_status : Option SessionState → RgbResultCommand
    from_status none = result_processing
    from_status (some state) =
        if is_not_started state && is_none session.processing_started_at
        then result_not_started
        else if is_cancelled_state state
        then result_cancelled
        else if is_finished_state state
        then result_cancelled
        else result_processing

-- The join of the three tables; the public id is unique, and so are the ids.
joined : String → String → Db → Session → Option SessionBinding
joined device_code gateway_code db session =
    with_device
      (find? (λ (d : Device). (session.device_id == d.id) && str_eq d.device_code device_code)
        db.devices)
      (find? (λ (g : Gateway). (session.gateway_id == g.id) && str_eq g.gateway_code gateway_code)
        db.gateways)
  where
    with_device : Option Device → Option Gateway → Option SessionBinding
    with_device (some d) (some g) = some (record { session = session; device = d; gateway = g })
    with_device _ _ = none

join_rows : Option Session → String → String → Db → Option SessionBinding
unfolding joined
join_rows none device_code gateway_code db = none
join_rows (some s) device_code gateway_code db = joined device_code gateway_code db s

authorize : Option SessionBinding → Exec Db SessionBinding
authorize none db = (err (app_error "SESSION_NOT_FOUND" 404), db)
authorize (some b) db =
    if b.device.enabled
    then (if b.gateway.enabled then (ok b, db) else (err (app_error "GATEWAY_DISABLED" 403), db))
    else (err (app_error "DEVICE_DISABLED" 403), db)

unfoldable pub get_session_binding : String → String → String → Exec Db SessionBinding
unfolding join_rows authorize
get_session_binding session_public_id device_code gateway_code db =
    authorize
      (join_rows (find? (λ (s : Session). str_eq s.public_id session_public_id) db.sessions)
        device_code gateway_code db)
      db
