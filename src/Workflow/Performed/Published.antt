-- ===== src/Workflow/Performed/Published.antt =====
-- workflows/activities/rgb.py: the two activities that write the delivery row, for a session that is
-- cancelled.
use pages_to_rgb.Prelude.{ℕ, String, ◌≡◌, refl, true, List, Option, none, some, find?}
use pages_to_rgb.Common.Value.{Fields, text, get}
use pages_to_rgb.Common.Exec.{Result, ok, err, continue, settle}
use pages_to_rgb.Session.State.{cancelled}
use pages_to_rgb.Rgb.Schemas.{result_cancelled}
use pages_to_rgb.Rgb.Delivery.Binding.{SessionBinding}
use pages_to_rgb.Rgb.Delivery.Result.{
  is_cancelled_status, mark_result_processing, get_or_create_delivery,
}
use pages_to_rgb.Rgb.Delivery.Untouched.{
  OnlyDelivery, get_or_create-OnlyDelivery, mark_result_processing-OnlyDelivery,
}
use pages_to_rgb.Rgb.Publisher.{RgbPublicationResult, cancelled_result}
use pages_to_rgb.Rgb.Publisher.Bound.{internal_binding_rule}
use pages_to_rgb.Rgb.Publish.{
  publish_rgb, cancel_result, publish_rgb_for_session, mark_processing_for_session,
}
use pages_to_rgb.Workflow.Activities.{with_public_id}
use pages_to_rgb.Workflow.Performed.{
  Platform, Moment, answered, published_fields, processing_fields, rows_of,
  mark_rgb_result_processing, publish_rgb_result,
}
use pages_to_rgb.Db.{Db, Session, Delivery, Question, FinalAnswer}

-- A result, if there is one, says `RESULT_CANCELLED`.
abbrev pub SaysCancelled : Result Fields → Type 0
SaysCancelled r =
    (fields : Fields) → r ≡ ok fields → get "command" fields ≡ some (text "RESULT_CANCELLED")

module _ {A : Type 0} (f : A → Fields) (db : Db) where
  settled-OnlyDelivery :
      (out : Result A × Db) → OnlyDelivery db out.1 → OnlyDelivery db (settle db (answered f out)).1
  unfolding answered
  settled-OnlyDelivery (ok a, new) h = h
  settled-OnlyDelivery (err e, new) h = refl

module _ (public_id : String) (db : Db) {s : Session}
    (found : find? (with_public_id public_id) db.sessions ≡ some s)
    (status : s.status ≡ some cancelled) where
  bound_cancelled :
      (b : SessionBinding) → b.session ≡ s → is_cancelled_status b.session.status ≡ true
  bound_cancelled b same = rw same (rw status refl)

  pub mark-OnlyDelivery :
      (platform : Platform) (now : ℕ)
      → OnlyDelivery db (mark_rgb_result_processing platform public_id now db).1
  unfolding mark_rgb_result_processing mark_processing_for_session answered
  mark-OnlyDelivery platform now =
      internal_binding_rule
        (λ (out : Result SessionBinding × Db).
          OnlyDelivery db
            (settle db (
              answered (processing_fields platform public_id)
                (continue out.0 (λ b. mark_result_processing platform.uuid_text b now) out.1))).1)
        public_id db found (λ e. refl)
        (λ b same.
          settled-OnlyDelivery (processing_fields platform public_id) db
            (mark_result_processing platform.uuid_text b now db)
            (mark_result_processing-OnlyDelivery platform.uuid_text b now db
              (bound_cancelled b same)))

  module _ (platform : Platform) (m : Moment) where
    -- A publication that only changes the delivery, and says so.
    Withdrawn : Result RgbPublicationResult × Db → Type 0
    Withdrawn out =
        let end_state = settle db (answered (published_fields public_id) out) in
        OnlyDelivery db end_state.1 × SaysCancelled end_state.0

    withdrawn :
        (reason : String) (out : Result Delivery × Db)
        → OnlyDelivery db out.1
        → Withdrawn (continue out.0 (λ _ new. (ok (cancelled_result reason), new)) out.1)
    unfolding Withdrawn answered published_fields get
    withdrawn reason (ok d, new) h = (h, λ fields same. cc)
    withdrawn reason (err e, new) h = (refl, λ fields same. cc)

    binding-Withdrawn :
        (b : SessionBinding) (rows : List (Question × Option FinalAnswer))
        → b.session ≡ s
        → Withdrawn (
            publish_rgb platform.uuid_text platform.sha256_hex platform.json_size platform.settings
              b m.now m.new_id m.new_public_id platform.int_of platform.parse_colour rows db)
    unfolding publish_rgb cancel_result
    binding-Withdrawn b rows same = rw (bound_cancelled b same) (
        withdrawn "SESSION_CANCELLED"
          (get_or_create_delivery platform.uuid_text b result_cancelled none
            (some "SESSION_CANCELLED") m.now db)
          (get_or_create-OnlyDelivery platform.uuid_text b m.now db result_cancelled none
            (some "SESSION_CANCELLED")))

    pub publish-Withdrawn :
        let out = publish_rgb_result platform public_id m db in
        OnlyDelivery db out.1 × SaysCancelled out.0
    unfolding publish_rgb_result publish_rgb_for_session answered Withdrawn
    publish-Withdrawn =
        let rows = rows_of (find? (with_public_id public_id) db.sessions) db in
        internal_binding_rule
          (λ (out : Result SessionBinding × Db). Withdrawn (
            continue out.0
              (λ b.
                publish_rgb platform.uuid_text platform.sha256_hex platform.json_size
                  platform.settings b m.now m.new_id m.new_public_id platform.int_of
                  platform.parse_colour rows)
              out.1))
          public_id db found (λ e. (refl, λ fields same. cc))
          (λ b same. binding-Withdrawn b rows same)
