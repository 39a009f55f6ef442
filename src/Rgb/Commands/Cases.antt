-- ===== src/Rgb/Commands/Cases.antt =====
-- How an operation on one command goes: the rules that the proofs about the operations share.
use pages_to_rgb.Prelude.{
  ℕ, String, ◌≡◌, true, Option, none, some, ◌==◌, ap, ◌∙◌, List, arith, find?, str_eq, if_rule,
  option_rule,
}
use pages_to_rgb.Common.Exec.{Exec, Error, Result, ok, err, app_error, continue, ◌>>=◌}
use pages_to_rgb.Db.{Db, Session, Device, Command}
use pages_to_rgb.Rgb.Commands.Lookup.{
  find_device, check_device, expire_overdue, of_device, get_command, check_command,
}
use pages_to_rgb.Rgb.Commands.Create.{check_linked}

check_device-enabled :
    (d : Device) (db : Db) → d.enabled ≡ true → check_device (some d) db ≡ (ok d, db)
unfolding check_device
check_device-enabled d db h = ground arith

-- The lookup of a device reads the devices only.
pub find_device_elsewhere :
    (device_code : String) (db db' : Db) {d : Device}
    → db'.devices ≡ db.devices
    → find_device device_code db ≡ (ok d, db)
    → find_device device_code db' ≡ (ok d, db')
unfolding find_device
find_device_elsewhere device_code db db' {d} same h =
    ap
      (λ (ds : List Device).
        check_device (find? (λ (r : Device). str_eq r.device_code device_code) ds) db')
      same
    ∙ option_rule (λ o. check_device o db ≡ (ok d, db) → check_device o db' ≡ (ok d, db'))
        (find? (λ (r : Device). str_eq r.device_code device_code) db.devices) (λ _ e. cc e)
        (λ a _ e. ground arith) h

-- A property of what is returned and of the final database, shown for the cases of `_device` and of
-- what comes after it.
pub find_device_rule {ℓ} :
    {A : Type 0} (Q : Result A × Db → Type ℓ) (device_code : String) (f : Device → Exec Db A)
    (db : Db)
    → ((e : Error) → Q (err e, db))
    → ((device : Device) → find_device device_code db ≡ (ok device, db) → Q (f device db))
    → Q ((find_device device_code >>= f) db)
unfolding find_device
find_device_rule Q device_code f db h k =
    option_rule (λ o. Q ((check_device o >>= f) db))
      (find? (λ (d : Device). str_eq d.device_code device_code) db.devices)
      (λ _. h (app_error "DEVICE_UNKNOWN" 404))
      λ d e.
        if_rule (λ (r : Result Device × Db). Q (continue r.0 f r.1)) d.enabled (ok d, db)
          (err (app_error "DEVICE_DISABLED" 403), db)
          (λ on. k d (ap (λ o. check_device o db) e ∙ check_device-enabled d db on))
          (λ _. h (app_error "DEVICE_DISABLED" 403))

-- The same for `get_command`: overdue commands of the device have expired by then, whether or not
-- the command is found.
pub get_command_rule {ℓ} :
    {A : Type 0} (Q : Result A × Db → Type ℓ) (uuid_text : ℕ → String) (device_code : String)
    (command_id now : ℕ) (f : Command × Device → Exec Db A) (db : Db)
    → ((e : Error) → Q (err e, db))
    → ((e : Error) (device : Device) → Q (err e, expire_overdue uuid_text now device db))
    → ((device : Device) (c : Command)
        → find_device device_code db ≡ (ok device, db)
        → find? (of_device device.id command_id) (expire_overdue uuid_text now device db).commands
          ≡ some c
        → Q (f (c, device) (expire_overdue uuid_text now device db)))
    → Q ((get_command uuid_text device_code command_id now >>= f) db)
unfolding get_command
get_command_rule Q uuid_text device_code command_id now f db h he hf =
    find_device_rule (λ r. Q (continue r.0 f r.1)) device_code
      (λ device db₁.
        let db' = expire_overdue uuid_text now device db₁ in
        check_command (find? (of_device device.id command_id) db'.commands) device db')
      db h
      λ device e.
        let db' = expire_overdue uuid_text now device db in
        option_rule (λ o. Q ((check_command o device >>= f) db'))
          (find? (of_device device.id command_id) db'.commands)
          (λ _. he (app_error "NOT_FOUND" 404) device) (λ c. hf device c e)

-- The same for the check of the linked session.
pub check_linked_rule {ℓ} :
    {A : Type 0} (Q : Result A × Db → Type ℓ) (device_id : ℕ) (row : Option (Option Session))
    (f : Option ℕ → Exec Db A) (db : Db)
    → ((e : Error) → Q (err e, db))
    → ((session_id : Option ℕ) → Q (f session_id db))
    → Q ((check_linked device_id row >>= f) db)
unfolding check_linked
check_linked_rule Q device_id none f db h k = h (app_error "SESSION_NOT_FOUND" 404)
check_linked_rule Q device_id (some none) f db h k = k none
check_linked_rule Q device_id (some (some s)) f db h k =
    if_rule (λ (r : Result (Option ℕ) × Db). Q (continue r.0 f r.1)) (s.device_id == device_id)
      (ok (some s.id), db) (err (app_error "RGB_SEQUENCE_CONFLICT" 409), db) (λ _. k (some s.id))
      (λ _. h (app_error "RGB_SEQUENCE_CONFLICT" 409))
