-- ===== src/Tests/Services.antt =====
-- The routes of the gateway, the stored responses, the OCR policy and the camera profiles on sample
-- data.
use pages_to_rgb.Prelude.{ℕ, ◌≡◌, ◌≤◌, refl, true, false, none, some, [], ◌∷◌, find?, count, arith}
use pages_to_rgb.Common.Exec.{ok}
use pages_to_rgb.Session.State.{capturing, locked}
use pages_to_rgb.Session.Transition.{by_id}
use pages_to_rgb.Capture.Upload.Flow.{World, is_open}
use pages_to_rgb.Capture.Outbox.{intent_of}
use pages_to_rgb.Gateway.EndSignal.{is_locked, end_signal}
use pages_to_rgb.Gateway.EndSignal.Ends.{end_signal_locks}
use pages_to_rgb.Ocr.Breaker.{Breaker, is_open as breaker_is_open}
use pages_to_rgb.Ocr.Laws.{fails, asks, after_uses, never_reopens}
use pages_to_rgb.Ocr.Policy.{Call, Policy, primary, fallback, analyze_page}
use pages_to_rgb.Ocr.Chain.{analyze_page-choice, answer, choice}
use pages_to_rgb.Camera.Contract.{default_profile_values}
use pages_to_rgb.Camera.Profiles.{
  ensure_default_profile, ensure_from, active_profile, latest, create_in_scope, new_revision,
  in_scope, in_force,
}
use pages_to_rgb.Camera.Takeover.{create_takes_over}
use pages_to_rgb.Camera.Revisions.{Below, LastActive}
use pages_to_rgb.Db.{Session, WorkflowOutbox, ocr, CameraProfileRevision}
use pages_to_rgb.Tests.Data.{uuid_text, session_in, db_in, device}
use pages_to_rgb.Tests.Uploads.{capture}

capturing_accepts : is_open capturing ≡ true
unfolding is_open
capturing_accepts = refl

end_signal_locks_example :
    let out = end_signal uuid_text false "gw" "s1" 70 (db_in capturing) in
    (out.0 ≡ ok (is_locked (some locked)))
    × ((s' : Session) × (find? (by_id 1) out.1.sessions ≡ some s')
        × (s'.status ≡ some locked)
        × (s'.capture_locked_at ≡ some 70))
    × ((row : WorkflowOutbox) × (find? (intent_of 1) out.1.outbox ≡ some row))
    × (count (intent_of 1) out.1.outbox ≤ 1)
    × (out.1.captures ≡ (db_in capturing).captures)
    × (out.1.frames ≡ (db_in capturing).frames)
end_signal_locks_example =
    end_signal_locks uuid_text "gw" "s1" 70 (db_in capturing) {s = session_in capturing}
      {d = device} {state = capturing} refl refl refl refl refl capturing_accepts (omega arith)

abbrev ended_world : World
ended_world = record {
  db = (end_signal uuid_text false "gw" "s1" 70 (db_in capturing)).1;
  objects = [];
}

abbrev captured : World
captured = record { db = record (db_in capturing) { captures = capture ∷ [] }; objects = [] }

abbrev opened : Breaker
opened = record { failures = []; opened_at = some 0 }

never_reopens_example :
    (breaker_is_open 90000000
      (after_uses (asks 60000000 ∷ fails 60000001 ∷ fails 60000002 ∷ []) opened)).0
    ≡ false
never_reopens_example =
    never_reopens (asks 60000000 ∷ fails 60000001 ∷ fails 60000002 ∷ []) opened 0 90000000 refl
      (omega arith)

abbrev policy : Policy
policy = record {
  cb_primary = opened;
  cb_fallback = record { failures = []; opened_at = none };
  last_provider_used = none;
  fallback_triggered = false;
  events = [];
}

abbrev call_of : ℕ → Call ℕ
call_of confidence = record { asked_at = 5; ended_at = 6; result = some confidence }

analyze_page-choice_example :
    (analyze_page (λ n. false) (call_of 9) (some (call_of 3)) policy).0
    ≡ choice (λ n. false) (answer primary (call_of 9) policy) (answer fallback (call_of 3) policy)
analyze_page-choice_example = analyze_page-choice (λ n. false) (call_of 9) (call_of 3) policy

create_takes_over_example :
    let db = db_in capturing in
    let row =
      new_revision 30 none ocr
        (default_profile_values ocr)
        "admin"
        (latest (in_scope ocr none) []) in
    let out =
      create_in_scope uuid_text 30 1 "admin" ocr none (default_profile_values ocr) none db in
    (out.0 ≡ ok row)
    × Below row.revision (in_scope ocr none) []
    × (active_profile ocr none out.1 ≡ some row)
    × (count (in_force ocr none) out.1.camera_profiles ≡ 1)
    × LastActive ocr none out.1
create_takes_over_example =
    create_takes_over ocr none uuid_text 30 1 "admin" (default_profile_values ocr) none
      (db_in capturing) tt

abbrev first_profile : CameraProfileRevision
first_profile = new_revision 30 none ocr (default_profile_values ocr) "gw" none

first_default :
    (ensure_default_profile uuid_text 30 1 "gw" true ocr (db_in capturing)).0 ≡ ok first_profile
unfolding ensure_default_profile ensure_from active_profile latest create_in_scope
first_default = refl
