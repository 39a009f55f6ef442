-- ===== src/Rgb/Delivery/Cursor.antt =====
-- The cursor of a delivery: what the firmware polls for is what changed, once.
use pages_to_rgb.Prelude.{
  ◌⊎◌, ℕ, String, ◌+◌, ◌≡◌, refl, Bool-cases, inl, inr, ◌∙◌, ap, if_rule, true, false, not, ◌&&◌,
  Option, none, some, find?, update, arith, find?-replace, find?-strengthen, length, length-snoc,
  ◌==◌, find?-test,
}
use pages_to_rgb.Common.Exec.{Result, ok, err, app_error}
use pages_to_rgb.Rgb.Schemas.{RgbResultCommand, result_cancelled, result_processing, same_command}
use pages_to_rgb.Rgb.Delivery.Binding.{SessionBinding}
use pages_to_rgb.Rgb.Delivery.Result.{
  get_or_create_delivery, advance_delivery, mark_result_processing, of_session, changed,
  is_cancelled_status, is_settled,
}
use pages_to_rgb.Rgb.Delivery.Snapshot.{result_snapshot, bound_delivery}
use pages_to_rgb.Db.{Db, Delivery}

module _ (uuid_text : ℕ → String) (binding : SessionBinding) (command : RgbResultCommand)
    (active : Option ℕ) (reason : Option String) (now : ℕ) (db : Db) {d : Delivery}
    (found : find? (of_session binding.session.id) db.deliveries ≡ some d) where
  abbrev pub advanced : Delivery → Delivery
  advanced k = record k {
    command = command;
    active_sequence_id = active;
    reason_code = reason;
    cursor = k.cursor + 1;
    updated_at = now;
  }

  abbrev pub Visible : Result Delivery × Db → Type 0
  Visible r =
      (r.0 ≡ ok (advanced d))
      × (length r.1.audit ≡ length db.audit + 1)
      × (find? (of_session binding.session.id) r.1.deliveries ≡ some (advanced d))

  -- A request that asks for what is there writes nothing. One that asks for anything else makes it
  -- visible, raises the cursor by one and appends one audit event. A binding to another device or
  -- gateway is refused, and nothing is written.
  pub delivery_advances :
      let r = get_or_create_delivery uuid_text binding command active reason now db in
      (bound_delivery binding d ≡ false → r ≡ (err (app_error "FORBIDDEN" 403), db))
      × (bound_delivery binding d ≡ true → changed d command active reason ≡ false → r ≡ (ok d, db))
      × (bound_delivery binding d ≡ true → changed d command active reason ≡ true → Visible r)
  unfolding get_or_create_delivery advance_delivery
  delivery_advances =
      let keyed = find?-test (of_session binding.session.id) db.deliveries found in
      let id_of_d : d.session_id ≡ binding.session.id = ground (arith, keyed) in
      rw found (
        λ b. ground (arith, keyed),
        λ b c. ground (arith, keyed),
        λ b c.
            if_rule Visible
              (not ((d.device_id == binding.device.id) && (d.gateway_id == binding.gateway.id))) _ _
              (λ h. absurd (ground (arith, keyed)))
              λ _.
                if_rule Visible (changed d command active reason) _ _
                  (λ _. (
                    refl,
                    length-snoc db.audit _,
                    rw
                        (ap (λ (n : ℕ). update (of_session n) (λ _. advanced d) db.deliveries)
                          id_of_d)
                        (find?-replace (of_session binding.session.id) db.deliveries (advanced d)
                          found keyed),
                  ))
                  (λ h. cc (c, h)),
      )

  -- After a change that asks for a command without a sequence, on a row that belongs to the binding,
  -- a poll with the row's old cursor is answered with that command and the next cursor, and a poll
  -- with the cursor of that answer gets no answer.
  pub poll_sees_change_once :
      bound_delivery binding d ≡ true
      → changed d command active reason ≡ true
      → active ≡ none
      → let db' = (get_or_create_delivery uuid_text binding command active reason now db).1 in
        (result_snapshot binding d.cursor db'
          ≡ some (record {
            command = command;
            cursor = d.cursor + 1;
            session_id = binding.session.public_id;
            sequence = none;
          }))
        × (result_snapshot binding (d.cursor + 1) db' ≡ none)
  unfolding result_snapshot
  poll_sees_change_once b c e =
      let visible = delivery_advances.2 b c in
      let row =
        find?-strengthen (of_session binding.session.id) (bound_delivery binding) _
          (λ k h. ground arith) visible.2 b in
      rw row (rw e (ground arith, ground arith))

abbrev pub command_of : Option Delivery → Option RgbResultCommand
command_of none = none
command_of (some d) = some d.command

-- The result command that a poll of the session finds.
abbrev pub visible_command : SessionBinding → Db → Option RgbResultCommand
visible_command binding db = command_of (find? (of_session binding.session.id) db.deliveries)

same_command_sound : (a b : RgbResultCommand) → same_command a b ≡ true → a ≡ b
same_command_sound a b h = ground arith

unchanged_command :
    (d : Delivery) (command : RgbResultCommand) (active : Option ℕ) (reason : Option String)
    → changed d command active reason ≡ false
    → d.command ≡ command
unfolding changed
unchanged_command d command active reason h = same_command_sound d.command command (ground arith)

module _ (uuid_text : ℕ → String) (binding : SessionBinding) (db : Db) {d : Delivery}
    (found : find? (of_session binding.session.id) db.deliveries ≡ some d)
    (bound : bound_delivery binding d ≡ true) where
  -- What is visible after a request is what it asked for, changed or not.
  pub asked_is_visible :
      (command : RgbResultCommand) (active : Option ℕ) (reason : Option String) (now : ℕ)
      → visible_command binding
          (get_or_create_delivery uuid_text binding command active reason now db).1
        ≡ some command
  asked_is_visible command active reason now =
      let laws = delivery_advances uuid_text binding command active reason now db found in
      elim (Bool-cases (changed d command active reason)) [
        | inl c ↦ ap command_of (laws.2 bound c).2
        | inr c ↦
            rw (laws.1 bound c)
              (ap command_of found ∙ ap some (unchanged_command d command active reason c))
      ]

  -- The cancellation fence of a workflow that starts. A cancelled session shows `RESULT_CANCELLED`;
  -- for any other one a settled result is left as it is, and nothing is written; and what is not
  -- settled becomes `RESULT_PROCESSING`.
  pub processing_fence :
      (now : ℕ)
      → let after = visible_command binding (mark_result_processing uuid_text binding now db).1 in
        ((is_cancelled_status binding.session.status ≡ true) × (after ≡ some result_cancelled))
        ⊎ ((is_cancelled_status binding.session.status ≡ false)
            × (is_settled d.command ≡ true)
            × (mark_result_processing uuid_text binding now db ≡ (ok d, db)))
        ⊎ ((is_cancelled_status binding.session.status ≡ false)
            × (is_settled d.command ≡ false)
            × (after ≡ some result_processing))
  unfolding mark_result_processing
  processing_fence now = elim (Bool-cases (is_cancelled_status binding.session.status)) [
    | inl c ↦ inl (c, rw c (asked_is_visible result_cancelled none (some "CANCELLED") now))
    | inr c ↦ elim (Bool-cases (is_settled d.command)) [
      | inl s ↦ inr (inl (c, s, rw c (rw found (rw s refl))))
      | inr s ↦
          inr
            (inr (c, s, rw c (rw found (rw s (asked_is_visible result_processing none none now)))))
    ]
  ]
