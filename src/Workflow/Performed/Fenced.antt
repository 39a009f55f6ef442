-- ===== src/Workflow/Performed/Fenced.antt =====
-- workflows/activities/real.py: the fence against cancelled sessions.
use pages_to_rgb.Prelude.{String, ◌≡◌, false, some, find?}
use pages_to_rgb.Common.Value.{Fields}
use pages_to_rgb.Common.Exec.{Exec, Result, err, app_error}
use pages_to_rgb.Session.State.{cancelled, ◌≈◌}
use pages_to_rgb.Session.Transition.{by_id}
use pages_to_rgb.Rgb.Delivery.Untouched.{OnlyDelivery}
use pages_to_rgb.Workflow.Program.{Activity}
use pages_to_rgb.Workflow.Activities.{with_public_id}
use pages_to_rgb.Workflow.Activities.Correction.{
  emit_pre_correction_status, emit_post_correction_status,
}
use pages_to_rgb.Workflow.Performed.Published.{SaysCancelled}
use pages_to_rgb.Db.{Db, Session}

module _ (public_id : String) (db : Db) {s : Session}
    (found : find? (with_public_id public_id) db.sessions ≡ some s)
    (kept : find? (by_id s.id) db.sessions ≡ some s) (status : s.status ≡ some cancelled) where
  -- What an activity makes of the cancelled session.
  abbrev pub Treated : Activity → Result Fields × Db → Type 0
  Treated Activity.mark_rgb_result_processing out = OnlyDelivery db out.1
  Treated Activity.publish_rgb_result out = OnlyDelivery db out.1 × SaysCancelled out.0
  Treated Activity.emit_pre_correction_status out = out.1 ≡ db
  Treated Activity.emit_post_correction_status out = out.1 ≡ db
  Treated (Activity.advance_session_state t) out =
      (out.1 ≡ db)
      × ((cancelled ≈ t) ≡ false → out.0 ≡ err (app_error "INVALID_STATE_TRANSITION" 409))
  Treated _ out = out ≡ (err (app_error "SESSION_CANCELLED" 409), db)
