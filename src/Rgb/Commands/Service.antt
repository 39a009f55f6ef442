-- ===== src/Rgb/Commands/Service.antt =====
-- The manual commands as a service: requests come one after another, each in a transaction of its
-- own, and one that raises is rolled back (apps/api/dependencies.py).
use pages_to_rgb.Prelude.{ℕ, String, ◌≡◌, ◌≤◌, count, arith, subst, sym, []}
use pages_to_rgb.Common.Value.{Value}
use pages_to_rgb.Common.Exec.{Result, ok, err}
use pages_to_rgb.Db.{Db}
use pages_to_rgb.Rgb.Commands.Status.{TestRequest}
use pages_to_rgb.Rgb.Commands.Lookup.{has_command_id, locks}
use pages_to_rgb.Rgb.Commands.Create.{create_manual_command}
use pages_to_rgb.Rgb.Commands.Stop.{stop_command}
use pages_to_rgb.Rgb.Commands.Events.{EventRequest, record_event}
use pages_to_rgb.Rgb.Commands.Exclusion.{
  IsExclusive, create-IsExclusive, stop-IsExclusive, event-IsExclusive,
}

-- `get_uow`: commit on success, roll back on an exception.
abbrev pub committed {ℓ} : {A : Type ℓ} → Db → Result A × Db → Db
committed old (ok a, new) = new
committed old (err e, new) = old

committed-IsExclusive :
    {A : Type 0} (old : Db) (r : Result A × Db)
    → IsExclusive old
    → IsExclusive r.1
    → IsExclusive (committed old r)
committed-IsExclusive old (ok a, new) h k = k
committed-IsExclusive old (err e, new) h k = h

module _ (uuid_text : ℕ → String) (value_text : Value → String) where
  -- One request; the UUID of a new command is new.
  pub data Request (db : Db) : Db → Type 0 where
    create :
        (device_code : String) (body : TestRequest) (actor : String)
        (command_id expiry_now now queued_at : ℕ)
        → count (has_command_id command_id) db.commands ≡ 0
        → Request db (
            committed db (
              create_manual_command uuid_text device_code body actor command_id expiry_now now
                queued_at db))
    stop :
        (device_code : String) (command_id : ℕ) (actor : String) (expiry_now now : ℕ)
        → Request db
            (committed db (stop_command uuid_text device_code command_id actor expiry_now now db))
    event :
        (device_code : String) (command_id : ℕ) (q : EventRequest) (expiry_now now : ℕ)
        → Request db (
            committed db
              (record_event uuid_text value_text device_code command_id q expiry_now now db))

  pub data Served (db : Db) : Db → Type 0 where
    none_yet : Served db db
    then : {mid last : Db} → Served db mid → Request mid last → Served db last

  Request-IsExclusive : {db db' : Db} → Request db db' → IsExclusive db → IsExclusive db'
  Request-IsExclusive {db} (create device_code body actor command_id expiry_now now queued_at fresh)
        h =
      committed-IsExclusive db
        (create_manual_command uuid_text device_code body actor command_id expiry_now now queued_at
          db)
        h
        (create-IsExclusive uuid_text device_code body actor command_id expiry_now now queued_at db
          h fresh)
  Request-IsExclusive {db} (stop device_code command_id actor expiry_now now) h =
      committed-IsExclusive db
        (stop_command uuid_text device_code command_id actor expiry_now now db) h
        (stop-IsExclusive uuid_text device_code command_id actor expiry_now now db h)
  Request-IsExclusive {db} (event device_code command_id q expiry_now now) h =
      committed-IsExclusive db
        (record_event uuid_text value_text device_code command_id q expiry_now now db) h
        (event-IsExclusive uuid_text value_text device_code command_id q expiry_now now db h)

  pub Served-IsExclusive : {db db' : Db} → Served db db' → IsExclusive db → IsExclusive db'
  Served-IsExclusive none_yet h = h
  Served-IsExclusive (then s q) h = Request-IsExclusive q (Served-IsExclusive s h)

  -- Mutual exclusion of manual tests: whatever creations, stops and events are served, in whatever
  -- order and at whatever times, no device ever has two commands that lock it, if there were none at
  -- the start and every new command gets a new id.
  pub one_test_per_device :
      {db db' : Db}
      → db.commands ≡ []
      → Served db db'
      → (device_id : ℕ) → count (locks device_id) db'.commands ≤ 1
  one_test_per_device e s =
      (Served-IsExclusive s (record {
        unique = λ n. subst (λ cs. count (has_command_id n) cs ≤ 1) (sym e) (omega arith);
        exclusive = λ d. subst (λ cs. count (locks d) cs ≤ 1) (sym e) (omega arith);
      })).exclusive
