-- ===== src/Rgb/Commands/Lifecycle.antt =====
-- The life of a manual command in time: what expires, what is refused afterwards, and what a stop
-- leaves behind.
use pages_to_rgb.Prelude.{
  ℕ, String, ◌≡◌, refl, Bool, true, false, List, [], ◌∷◌, count, update, select, any, arith, length,
  length-append, length-map, ◌⊎◌, ◌&&◌, ◌+◌, map, ◌++◌, ap,
}
use pages_to_rgb.Common.Exec.{Result, ok, err, app_error}
use pages_to_rgb.Db.{Db, Device, CommandStatus, CommandEventName, Command}
use pages_to_rgb.Rgb.Commands.Status.{TestRequest, is_lock, next_status}
use pages_to_rgb.Rgb.Commands.Create.{create_manual_command, create_for}
use pages_to_rgb.Rgb.Commands.Lookup.{find_device, expire_overdue, overdue, expire, locks}

abbrev pub is_cancelled : CommandStatus → Bool
is_cancelled CommandStatus.cancelled = true
is_cancelled _ = false

expired_not_overdue : (now later d : ℕ) (c : Command) → overdue later d (expire now c) ≡ false
unfolding overdue
expired_not_overdue now later d c = ground arith

none_overdue :
    (now d : ℕ) (cs : List Command)
    → count (overdue now d) (update (overdue now d) (expire now) cs) ≡ 0
none_overdue now d [] = refl
none_overdue now d (c ∷ cs) = ground (arith, none_overdue now d cs, expired_not_overdue now now d c)

length-select : (p : Command → Bool) (cs : List Command) → length (select p cs) ≡ count p cs
length-select p [] = refl
length-select p (c ∷ cs) = ground (arith, length-select p cs)

length-append-map {κ} :
    {B : Type κ} (f : Command → B) (p : Command → Bool) (xs : List B) (cs : List Command)
    → length (xs ++ map f (select p cs)) ≡ length xs + count p cs
length-append-map f p xs cs = omega (
  arith,
  length-append {κ} xs (map f (select p cs)),
  length-map (select p cs) f,
  length-select p cs,
)

-- After the expiry no active command of the device is past its deadline, and each command that
-- expired has one event and one audit event.
pub expire_overdue_complete :
    (uuid_text : ℕ → String) (now : ℕ) (device : Device) (db : Db)
    → let db' = expire_overdue uuid_text now device db in
      let expired = count (overdue now device.id) db.commands in
      (count (overdue now device.id) db'.commands ≡ 0)
      × (length db'.command_events ≡ length db.command_events + expired)
      × (length db'.audit ≡ length db.audit + expired)
unfolding expire_overdue
expire_overdue_complete uuid_text now device db =
    (none_overdue now device.id db.commands, length-append-map _ _ _ _, length-append-map _ _ _ _)

-- A command that has expired or failed takes no event, and one that is off takes only `OFF` again.
pub ended_commands :
    (s : CommandStatus) (e : CommandEventName)
    → (is_lock s ≡ false)
    → (next_status s e ≡ err (app_error "RGB_COMMAND_INVALID_TRANSITION" 409))
      ⊎ ((s ≡ CommandStatus.off) × (next_status s e ≡ ok CommandStatus.off))
unfolding next_status is_lock
ended_commands s e h = ground arith

abbrev pub cancelled_lock : ℕ → Command → Bool
cancelled_lock d c = locks d c && is_cancelled c.status

lock_survives :
    (now d e : ℕ) (cs : List Command)
    → any (cancelled_lock d) cs ≡ true
    → any (locks d) (update (overdue now e) (expire now) cs) ≡ true
unfolding overdue is_lock
lock_survives now d e [] h = cc
lock_survives now d e (c ∷ cs) h = ground (arith, lock_survives now d e cs)

module _ (uuid_text : ℕ → String) (device_code : String) (body : TestRequest) (actor : String)
    (command_id expiry_now now queued_at : ℕ) (db : Db) {device : Device}
    (known : find_device device_code db ≡ (ok device, db)) where
  pub create_busy :
      any (locks device.id) (expire_overdue uuid_text expiry_now device db).commands ≡ true
      → create_manual_command uuid_text device_code body actor command_id expiry_now now queued_at
          db
        ≡ (err (app_error "RGB_TEST_BUSY" 409), expire_overdue uuid_text expiry_now device db)
  unfolding create_manual_command create_for
  create_busy h = rw known (rw h)

  -- A stop alone does not free the device. While a cancelled command locks it, every new test is
  -- refused, however late it comes: the deadline does not apply to a cancelled command.
  pub cancelled_blocks_creation :
      any (cancelled_lock device.id) db.commands ≡ true
      → (create_manual_command uuid_text device_code body actor command_id expiry_now now queued_at
          db).0
        ≡ err (app_error "RGB_TEST_BUSY" 409)
  cancelled_blocks_creation h =
      ap (λ (r : Result Command × Db). r.0)
        (create_busy
          (unfold expire_overdue in lock_survives expiry_now device.id device.id db.commands h))
