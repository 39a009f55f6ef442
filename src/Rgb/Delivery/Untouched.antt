-- ===== src/Rgb/Delivery/Untouched.antt =====
-- rgb/delivery.py: the tables that a change of the delivery row does not touch.
use pages_to_rgb.Prelude.{
  ℕ, String, ◌≡◌, refl, true, not, ◌&&◌, ◌==◌, Option, none, some, find?, if_rule,
}
use pages_to_rgb.Common.Exec.{Result}
use pages_to_rgb.Rgb.Schemas.{RgbResultCommand, result_processing, result_cancelled}
use pages_to_rgb.Rgb.Delivery.Binding.{SessionBinding}
use pages_to_rgb.Rgb.Delivery.Result.{
  create_delivery, advance_delivery, write_delivery, get_or_create_delivery, mark_current,
  mark_result_processing, changed, of_session, is_cancelled_status, is_settled,
}
use pages_to_rgb.Db.{Db, Delivery}

-- The devices, the gateways, the captures with their frames, and the outbox.
abbrev pub Untouched : Db → Db → Type 0
Untouched old new =
    (new.devices ≡ old.devices)
    × (new.gateways ≡ old.gateways)
    × (new.captures ≡ old.captures)
    × (new.frames ≡ old.frames)
    × (new.outbox ≡ old.outbox)

-- The sessions as well.
abbrev pub Quiet : Db → Db → Type 0
Quiet old new = (new.sessions ≡ old.sessions) × Untouched old new

module _ (uuid_text : ℕ → String) (binding : SessionBinding) (now : ℕ) (db : Db) where
  abbrev QuietResult : Result Delivery × Db → Type 0
  QuietResult out = Quiet db out.1

  write_delivery-Quiet :
      (o : Option Delivery) (command : RgbResultCommand) (active : Option ℕ)
      (reason : Option String)
      → QuietResult (write_delivery uuid_text binding o command active reason now db)
  unfolding write_delivery create_delivery advance_delivery
  write_delivery-Quiet none command active reason = (refl, (refl, refl, refl, refl, refl))
  write_delivery-Quiet (some d) command active reason =
      if_rule QuietResult
        (not ((d.device_id == binding.device.id) && (d.gateway_id == binding.gateway.id))) _ _
        (λ _. (refl, (refl, refl, refl, refl, refl)))
        (λ _.
          if_rule QuietResult (changed d command active reason) _ _
            (λ _. (refl, (refl, refl, refl, refl, refl)))
            (λ _. (refl, (refl, refl, refl, refl, refl))))

  get_or_create-Quiet :
      (command : RgbResultCommand) (active : Option ℕ) (reason : Option String)
      → QuietResult (get_or_create_delivery uuid_text binding command active reason now db)
  unfolding get_or_create_delivery
  get_or_create-Quiet command active reason =
      write_delivery-Quiet (find? (of_session binding.session.id) db.deliveries) command active
        reason

  mark_current-Quiet : (o : Option Delivery) → QuietResult (mark_current uuid_text binding o now db)
  unfolding mark_current
  mark_current-Quiet none = get_or_create-Quiet result_processing none none
  mark_current-Quiet (some d) =
      if_rule QuietResult (is_settled d.command) _ _ (λ _. (refl, (refl, refl, refl, refl, refl)))
        (λ _. get_or_create-Quiet result_processing none none)

  pub mark_result_processing-Quiet : Quiet db (mark_result_processing uuid_text binding now db).1
  unfolding mark_result_processing
  mark_result_processing-Quiet =
      if_rule QuietResult (is_cancelled_status binding.session.status) _ _
        (λ _. get_or_create-Quiet result_cancelled none (some "CANCELLED"))
        (λ _. mark_current-Quiet (find? (of_session binding.session.id) db.deliveries))

-- Nothing but the deliveries and the audit has changed.
abbrev pub OnlyDelivery : Db → Db → Type 0
OnlyDelivery old new = (record new { deliveries = old.deliveries; audit = old.audit }) ≡ old

module _ (uuid_text : ℕ → String) (binding : SessionBinding) (now : ℕ) (db : Db) where
  abbrev OnlyDeliveryResult : Result Delivery × Db → Type 0
  OnlyDeliveryResult out = OnlyDelivery db out.1

  write_delivery-OnlyDelivery :
      (o : Option Delivery) (command : RgbResultCommand) (active : Option ℕ)
      (reason : Option String)
      → OnlyDeliveryResult (write_delivery uuid_text binding o command active reason now db)
  unfolding write_delivery create_delivery advance_delivery
  write_delivery-OnlyDelivery none command active reason = refl
  write_delivery-OnlyDelivery (some d) command active reason =
      if_rule OnlyDeliveryResult
        (not ((d.device_id == binding.device.id) && (d.gateway_id == binding.gateway.id))) _ _
        (λ _. refl)
        (λ _.
          if_rule OnlyDeliveryResult (changed d command active reason) _ _ (λ _. refl) (λ _. refl))

  pub get_or_create-OnlyDelivery :
      (command : RgbResultCommand) (active : Option ℕ) (reason : Option String)
      → OnlyDeliveryResult (get_or_create_delivery uuid_text binding command active reason now db)
  unfolding get_or_create_delivery
  get_or_create-OnlyDelivery command active reason =
      write_delivery-OnlyDelivery (find? (of_session binding.session.id) db.deliveries) command
        active reason

  -- For a cancelled session.
  pub mark_result_processing-OnlyDelivery :
      is_cancelled_status binding.session.status ≡ true
      → OnlyDeliveryResult (mark_result_processing uuid_text binding now db)
  unfolding mark_result_processing
  mark_result_processing-OnlyDelivery h =
      rw h (get_or_create-OnlyDelivery result_cancelled none (some "CANCELLED"))
