-- ===== src/Rgb/Commands/Exclusion.antt =====
-- At most one manual command locks a device: the invariant, and that every operation keeps it.
use pages_to_rgb.Prelude.{
  ℕ, String, ◌≤◌, ◌≡◌, refl, subst, Bool, true, false, some, [], ◌∷◌, find?, count, any, update,
  arith, count-update_le, count-append, any-false-count, find?-weaken, count-replace_le, find?-test,
  if_rule, option_rule,
}
use pages_to_rgb.Common.Value.{Value, Fields}
use pages_to_rgb.Common.Exec.{Result, ok, err}
use pages_to_rgb.Db.{Db, Device, CommandStatus, CommandEventName, Command}
use pages_to_rgb.Rgb.Commands.Status.{is_lock, next_status, TestRequest}
use pages_to_rgb.Rgb.Commands.Lookup.{
  expire_overdue, overdue, expire, locks, has_command_id, of_device,
}
use pages_to_rgb.Rgb.Commands.Create.{
  create_manual_command, create_for, linked_row, insert_command, new_command, active_sequence,
}
use pages_to_rgb.Rgb.Commands.Stop.{stop_command, stop_row, is_stopped}
use pages_to_rgb.Rgb.Commands.Events.{
  EventRequest, record_event, record_found, check_key, check_status, apply_event, stamp, has_key,
}
use pages_to_rgb.Rgb.Commands.Cases.{find_device_rule, get_command_rule, check_linked_rule}

-- Command ids are unique, and no device has two commands that lock it.
pub record IsExclusive (db : Db) : Type 0 where
  pub unique : (n : ℕ) → count (has_command_id n) db.commands ≤ 1
  pub exclusive : (d : ℕ) → count (locks d) db.commands ≤ 1

expire_not_lock : (now : ℕ) (d : ℕ) (c : Command) → locks d (expire now c) ≡ false
unfolding is_lock
expire_not_lock now d c = ground arith

not_stopped-is_lock : (s : CommandStatus) → is_stopped s ≡ false → is_lock s ≡ true
unfolding is_stopped is_lock
not_stopped-is_lock s h = ground arith

-- A status that no longer locks is never left for one that does.
pub next_status-is_lock :
    (current : CommandStatus) (event : CommandEventName) {next : CommandStatus}
    → next_status current event ≡ ok next
    → is_lock next ≡ true
    → is_lock current ≡ true
unfolding next_status is_lock
next_status-is_lock current event h l = ground arith

-- The row that stands in place of another keeps the invariant, if it locks no more than that one.
replace-IsExclusive :
    (db db' : Db) (n d : ℕ) {c : Command} (c' : Command)
    → IsExclusive db
    → find? (of_device d n) db.commands ≡ some c
    → c'.command_id ≡ c.command_id
    → c'.device_id ≡ c.device_id
    → (is_lock c'.status ≡ true → is_lock c.status ≡ true)
    → db'.commands ≡ update (has_command_id c'.command_id) (λ _. c') db.commands
    → IsExclusive db'
replace-IsExclusive db db' n d {c} c' inv found same_id same_device weaker e =
    let id_of_c = find?-test (of_device d n) db.commands found in
    let keyed : find? (has_command_id c'.command_id) db.commands ≡ some c =
      find?-weaken (of_device d n) (has_command_id c'.command_id) db.commands
        (λ a h. ground (arith, h, id_of_c, same_id)) (inv.unique c'.command_id) found in
    record {
      unique = λ m. rw e (
          omega (
            arith,
            inv.unique m,
            count-replace_le (has_command_id c'.command_id) (has_command_id m) db.commands c'
                (inv.unique c'.command_id) keyed (λ h. ground (arith, h, same_id)),
          ));
      exclusive = λ m. rw e (
          omega (
            arith,
            inv.exclusive m,
            count-replace_le (has_command_id c'.command_id) (locks m) db.commands c'
                (inv.unique c'.command_id) keyed (λ h. ground (arith, h, same_device, weaker)),
          ));
    }

module _ (uuid_text : ℕ → String) where
  expire-IsExclusive :
      (now : ℕ) (device : Device) (db : Db)
      → IsExclusive db
      → IsExclusive (expire_overdue uuid_text now device db)
  unfolding expire_overdue
  expire-IsExclusive now device db inv = record {
    unique = λ n. omega (
      arith,
      inv.unique n,
      count-update_le (has_command_id n) (overdue now device.id) (expire now) db.commands
          (λ c _ h. h),
    );
    exclusive = λ d. omega (
      arith,
      inv.exclusive d,
      count-update_le (locks d) (overdue now device.id) (expire now) db.commands
          (λ c _ h. cc (expire_not_lock now d c, h)),
    );
  }

  stop_row-IsExclusive :
      (actor : String) (now n : ℕ) (c : Command) (device : Device) (db : Db)
      → IsExclusive db
      → find? (of_device device.id n) db.commands ≡ some c
      → IsExclusive (stop_row uuid_text actor now (c, device) db).1
  unfolding stop_row
  stop_row-IsExclusive actor now n c device db inv found =
      if_rule (λ (r : Result (Command × Bool) × Db). IsExclusive r.1) (is_stopped c.status) _ _
        (λ _. inv)
        (λ h.
          replace-IsExclusive db _ n device.id
            (record c { status = CommandStatus.cancelled; cancelled_at = some now }) inv found refl
            refl (λ _. not_stopped-is_lock c.status h) refl)

  -- A stop keeps the invariant, whatever it answers.
  pub stop-IsExclusive :
      (device_code : String) (command_id : ℕ) (actor : String) (expiry_now now : ℕ) (db : Db)
      → IsExclusive db
      → IsExclusive (stop_command uuid_text device_code command_id actor expiry_now now db).1
  unfolding stop_command
  stop-IsExclusive device_code command_id actor expiry_now now db inv =
      get_command_rule (λ r. IsExclusive r.1) uuid_text device_code command_id expiry_now
        (stop_row uuid_text actor now) db (λ _. inv)
        (λ _ device. expire-IsExclusive expiry_now device db inv)
        λ device c _ found.
          stop_row-IsExclusive actor now command_id c device
            (expire_overdue uuid_text expiry_now device db)
            (expire-IsExclusive expiry_now device db inv) found

  -- The stamps of an event leave the command's identity and its status.
  pub stamp-keeps :
      (value_text : Value → String) (event : CommandEventName) (payload : Fields) (now : ℕ)
      (c : Command)
      → let c' = stamp value_text event payload now c in
        (c'.command_id ≡ c.command_id) × (c'.device_id ≡ c.device_id) × (c'.status ≡ c.status)
  unfolding stamp
  stamp-keeps value_text event payload now c = ground arith

  apply_event-IsExclusive :
      (value_text : Value → String) (q : EventRequest) (now n : ℕ) (c : Command) (device : Device)
      (db : Db) (status : CommandStatus)
      → next_status c.status q.event ≡ ok status
      → IsExclusive db
      → find? (of_device device.id n) db.commands ≡ some c
      → IsExclusive (apply_event uuid_text value_text q status now (c, device) db).1
  unfolding apply_event
  apply_event-IsExclusive value_text q now n c device db status h inv found =
      let kept = stamp-keeps value_text q.event q.payload now (record c { status = status }) in
      replace-IsExclusive db _ n device.id
        (stamp value_text q.event q.payload now (record c { status = status })) inv found kept.0
        kept.1
        (λ l. next_status-is_lock c.status q.event h (subst (λ s. is_lock s ≡ true) kept.2 l)) refl

  check_status-IsExclusive :
      (value_text : Value → String) (q : EventRequest) (now n : ℕ) (c : Command) (device : Device)
      (db : Db) (r : Result CommandStatus)
      → next_status c.status q.event ≡ r
      → IsExclusive db
      → find? (of_device device.id n) db.commands ≡ some c
      → IsExclusive (check_status uuid_text value_text q r now (c, device) db).1
  unfolding check_status
  check_status-IsExclusive value_text q now n c device db (err e) h inv found = inv
  check_status-IsExclusive value_text q now n c device db (ok status) h inv found =
      if_rule (λ (r : Result (Command × Bool) × Db). IsExclusive r.1) _ _ _ (λ _. inv)
        (λ _. apply_event-IsExclusive value_text q now n c device db status h inv found)

  record_found-IsExclusive :
      (value_text : Value → String) (q : EventRequest) (now n : ℕ) (c : Command) (device : Device)
      (db : Db)
      → IsExclusive db
      → find? (of_device device.id n) db.commands ≡ some c
      → IsExclusive (record_found uuid_text value_text q now (c, device) db).1
  unfolding record_found
  record_found-IsExclusive value_text q now n c device db inv found =
      option_rule (λ o. IsExclusive (check_key uuid_text value_text q o now (c, device) db).1)
        (find? (has_key c.command_id q.idempotency_key) db.command_events)
        (λ _.
          check_status-IsExclusive value_text q now n c device db (next_status c.status q.event)
            refl inv found)
        λ e _.
          if_rule (λ (r : Result (Command × Bool) × Db). IsExclusive r.1) _ _ _ (λ _. inv)
            (λ _. inv)

  -- An event keeps the invariant, whether it is accepted, repeated or refused.
  pub event-IsExclusive :
      (value_text : Value → String) (device_code : String) (command_id : ℕ) (q : EventRequest)
      (expiry_now now : ℕ) (db : Db)
      → IsExclusive db
      → IsExclusive (record_event uuid_text value_text device_code command_id q expiry_now now db).1
  unfolding record_event
  event-IsExclusive value_text device_code command_id q expiry_now now db inv =
      if_rule (λ (r : Result (Command × Bool) × Db). IsExclusive r.1) _ _ _ (λ _. inv)
        λ _.
          get_command_rule (λ r. IsExclusive r.1) uuid_text device_code command_id expiry_now
            (record_found uuid_text value_text q now) db (λ _. inv)
            (λ _ device. expire-IsExclusive expiry_now device db inv)
            λ device c _ found.
              record_found-IsExclusive value_text q now command_id c device
                (expire_overdue uuid_text expiry_now device db)
                (expire-IsExclusive expiry_now device db inv) found

  insert-IsExclusive :
      (c : Command) (device_code : String) (body : TestRequest) (db : Db)
      → IsExclusive db
      → count (has_command_id c.command_id) db.commands ≡ 0
      → count (locks c.device_id) db.commands ≡ 0
      → IsExclusive (insert_command uuid_text c device_code body db).1
  unfolding insert_command
  insert-IsExclusive c device_code body db inv fresh free = record {
    unique =
        λ n. ground (arith, inv.unique n, count-append (has_command_id n) db.commands (c ∷ []));
    exclusive = λ d. ground (arith, inv.exclusive d, count-append (locks d) db.commands (c ∷ []));
  }

  fresh_after_expiry :
      (now n : ℕ) (device : Device) (db : Db)
      → count (has_command_id n) db.commands ≡ 0
      → count (has_command_id n) (expire_overdue uuid_text now device db).commands ≡ 0
  unfolding expire_overdue
  fresh_after_expiry now n device db h = omega (
    arith,
    count-update_le (has_command_id n) (overdue now device.id) (expire now) db.commands
        (λ c _ h. h),
  )

  create_for-IsExclusive :
      (device : Device) (device_code : String) (body : TestRequest) (actor : String)
      (command_id now queued_at : ℕ) (db : Db)
      → IsExclusive db
      → count (has_command_id command_id) db.commands ≡ 0
      → IsExclusive
          (create_for uuid_text device device_code body actor command_id now queued_at db).1
  unfolding create_for
  create_for-IsExclusive device device_code body actor command_id now queued_at db inv fresh =
      if_rule (λ (r : Result Command × Db). IsExclusive r.1) (any (locks device.id) db.commands) _ _
        (λ _. inv)
        λ free.
          if_rule (λ (r : Result Command × Db). IsExclusive r.1) (active_sequence device.id db) _ _
            (λ _. inv)
            λ _.
              check_linked_rule (λ r. IsExclusive r.1) device.id (linked_row body.session_id db) _
                db (λ _. inv)
                λ session_id.
                  insert-IsExclusive
                    (new_command body actor command_id device.id now session_id queued_at)
                    device_code body db inv (unfold new_command in fresh)
                    (unfold new_command in any-false-count (locks device.id) db.commands free)

  -- A creation with a new UUID keeps the invariant: it is refused while the device is locked.
  pub create-IsExclusive :
      (device_code : String) (body : TestRequest) (actor : String)
      (command_id expiry_now now queued_at : ℕ) (db : Db)
      → IsExclusive db
      → count (has_command_id command_id) db.commands ≡ 0
      → IsExclusive
          (create_manual_command uuid_text device_code body actor command_id expiry_now now
            queued_at db).1
  unfolding create_manual_command
  create-IsExclusive device_code body actor command_id expiry_now now queued_at db inv fresh =
      find_device_rule (λ r. IsExclusive r.1) device_code _ db (λ _. inv)
        λ device _.
          create_for-IsExclusive device device_code body actor command_id now queued_at
            (expire_overdue uuid_text expiry_now device db)
            (expire-IsExclusive expiry_now device db inv)
            (fresh_after_expiry expiry_now command_id device db fresh)
