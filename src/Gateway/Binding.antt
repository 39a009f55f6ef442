-- ===== src/Gateway/Binding.antt =====
-- apps/api/routers/gateway.py: how a route finds the session of its gateway and checks the device.
use pages_to_rgb.Prelude.{
  String, Bool, ◌&&◌, Option, none, some, find?, any, ◌==◌, str_eq, if◌then◌else◌,
}
use pages_to_rgb.Common.Exec.{Exec, Result, ok, err, app_error}
use pages_to_rgb.Db.{Db, Session, Device, Gateway}

-- The join of sessions and gateways.
abbrev pub bound_to : String → String → Db → Session → Bool
bound_to gateway_id session_id db s =
    str_eq s.public_id session_id
    && any (λ (g : Gateway). s.gateway_id == g.id && str_eq g.gateway_code gateway_id) db.gateways

abbrev pub device_of : Session → Db → Option Device
device_of s db = find? (λ (d : Device). d.id == s.device_id) db.devices

unfoldable pub check_device : Session → Option Device → Result (Session × Device)
check_device s none = err (app_error "FORBIDDEN" 403)
check_device s (some d) = if d.enabled then ok (s, d) else err (app_error "FORBIDDEN" 403)

unfoldable pub check_session : Db → Option Session → Result (Session × Device)
unfolding check_device
check_session db none = err (app_error "NOT_FOUND" 404)
check_session db (some s) = check_device s (device_of s db)

-- The session and its device; an HTTPException carries no reason code, and its status stands for it.
unfoldable pub get_session : String → String → Exec Db (Session × Device)
unfolding check_session
get_session gateway_id session_id db =
    (check_session db (find? (bound_to gateway_id session_id db) db.sessions), db)
