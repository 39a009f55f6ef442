-- ===== src/Rgb/Commands/Idempotency.antt =====
-- An event that is sent again: `record_event` accepts it as a repetition and records nothing twice.
use pages_to_rgb.Prelude.{
  ℕ, String, ◌≡◌, ◌≢◌, refl, sym, inl, inr, Bool-cases, subst, ◌∙◌, Bool, true, false, none, some,
  List, [], ◌∷◌, find?, update, arith, find?-append_none, find?-append_some, find?-test, eq_refl,
  option_rule, str_eq, if◌then◌else◌,
}
use pages_to_rgb.Common.Value.{Value, same_fields_refl}
use pages_to_rgb.Common.Exec.{Result, ok, err}
use pages_to_rgb.Db.{Db, Device, CommandStatus, Command, CommandEvent}
use pages_to_rgb.Rgb.Commands.Status.{next_status}
use pages_to_rgb.Rgb.Commands.Lookup.{
  find_device, expire_overdue, overdue, expire, has_command_id, of_device, get_command,
}
use pages_to_rgb.Rgb.Commands.Events.{
  EventRequest, record_event, record_found, check_key, check_status, apply_event, stamp, has_key,
  event_row,
}
use pages_to_rgb.Rgb.Commands.Cases.{get_command_rule, find_device_elsewhere}
use pages_to_rgb.Rgb.Commands.Exclusion.{stamp-keeps}

-- A row that is found by device and id is found again after its replacement, and after expiry.
find-replaced :
    (d n : ℕ) (cs : List Command) {c : Command} (c' : Command)
    → find? (of_device d n) cs ≡ some c
    → c'.command_id ≡ n
    → c'.device_id ≡ d
    → find? (of_device d n) (update (has_command_id n) (λ _. c') cs) ≡ some c'
find-replaced d n [] c' h e f = cc
find-replaced d n (x ∷ xs) {c} c' h e f = ground (arith, find-replaced d n xs {c = c} c')

abbrev aged : ℕ → ℕ → Command → Command
aged now e c = if overdue now e c then expire now c else c

find-expired :
    (d n now e : ℕ) (cs : List Command) {c : Command}
    → find? (of_device d n) cs ≡ some c
    → find? (of_device d n) (update (overdue now e) (expire now) cs) ≡ some (aged now e c)
find-expired d n now e [] h = cc
find-expired d n now e (x ∷ xs) {c} h = ground (arith, find-expired d n now e xs {c = c})

module _ (uuid_text : ℕ → String) (value_text : Value → String) (q : EventRequest) where
  -- An event that was recorded, and not taken for a repetition, had an unused key.
  recorded_fresh :
      (now : ℕ) (c : Command) (device : Device) (db : Db) {c' : Command}
      → (record_found uuid_text value_text q now (c, device) db).0 ≡ ok (c', false)
      → (find? (has_key c.command_id q.idempotency_key) db.command_events ≡ none)
        × ((status : CommandStatus) × ((record_found uuid_text value_text q now (c, device) db).1
              ≡ (apply_event uuid_text value_text q status now (c, device) db).1))
  unfolding record_found
  recorded_fresh now c device db {c'} h =
      option_rule
        (λ o.
          (check_key uuid_text value_text q o now (c, device) db).0 ≡ ok (c', false)
          → (o ≡ none)
            × ((status : CommandStatus) × ((check_key uuid_text value_text q o now (c, device) db).1
                  ≡ (apply_event uuid_text value_text q status now (c, device) db).1)))
        (find? (has_key c.command_id q.idempotency_key) db.command_events)
        (λ _ e. (refl, accepted (next_status c.status q.event) e)) (λ e _ k. absurd (ground arith))
        h
    where
      accepted :
          (r : Result CommandStatus)
          → (check_status uuid_text value_text q r now (c, device) db).0 ≡ ok (c', false)
          → (status : CommandStatus) × ((check_status uuid_text value_text q r now (c, device) db).1
              ≡ (apply_event uuid_text value_text q status now (c, device) db).1)
      accepted (err e) k = cc
      accepted (ok status) k = (status, ground arith)

  record_found_again :
      (now : ℕ) (c : Command) (device : Device) (db : Db) {e : CommandEvent}
      → find? (has_key c.command_id q.idempotency_key) db.command_events ≡ some e
      → e.payload ≡ q.payload
      → record_found uuid_text value_text q now (c, device) db ≡ (ok (c, true), db)
  unfolding record_found
  record_found_again now c device db h p = rw h (rw p (rw same_fields_refl))

  -- What an accepted event leaves for the next lookup of the same device, command and key.
  record Recorded (device_code : String) (device : Device) (n : ℕ) (db : Db) : Type 0 where
    known : find_device device_code db ≡ (ok device, db)
    row : Command
    found : find? (of_device device.id n) db.commands ≡ some row
    entry : CommandEvent
    keyed : find? (has_key n q.idempotency_key) db.command_events ≡ some entry
    same : entry.payload ≡ q.payload

  apply_event-Recorded :
      (device_code : String) (device : Device) (n now : ℕ) (status : CommandStatus) (c : Command)
      (db : Db)
      → find_device device_code db ≡ (ok device, db)
      → find? (of_device device.id n) db.commands ≡ some c
      → find? (has_key c.command_id q.idempotency_key) db.command_events ≡ none
      → Recorded device_code device n
          (apply_event uuid_text value_text q status now (c, device) db).1
  unfolding apply_event
  apply_event-Recorded device_code device n now status c db known found unused =
      let test = find?-test (of_device device.id n) db.commands found in
      let id_of_c : c.command_id ≡ n = ground (arith, test) in
      let device_of_c : c.device_id ≡ device.id = ground (arith, test) in
      let kept =
        stamp-keeps uuid_text value_text q.event q.payload now (record c { status = status }) in
      let c' = stamp value_text q.event q.payload now (record c { status = status }) in
      record {
        known = find_device_elsewhere device_code db _ refl known;
        row = c';
        found =
            subst
              (λ m.
                find? (of_device device.id n) (update (has_command_id m) (λ _. c') db.commands)
                ≡ some c')
              (sym (kept.0 ∙ id_of_c))
              (find-replaced device.id n db.commands c' found (kept.0 ∙ id_of_c)
                (kept.1 ∙ device_of_c));
        entry = event_row q c' device;
        keyed =
            find?-append_none (has_key n q.idempotency_key) db.command_events
              (event_row q c' device ∷ [])
              (subst (λ m. find? (has_key m q.idempotency_key) db.command_events ≡ none) id_of_c
                unused)
            ∙ ground (arith, eq_refl q.idempotency_key, kept.0, id_of_c);
        same = refl;
      }

  again :
      (device_code : String) (n expiry_now now : ℕ) (device : Device) (db : Db)
      → str_eq q.idempotency_key "" ≡ false
      → Recorded device_code device n db
      → (c : Command) × (record_event uuid_text value_text device_code n q expiry_now now db
          ≡ (ok (c, true), expire_overdue uuid_text expiry_now device db))
  unfolding record_event get_command expire_overdue
  again device_code n expiry_now now device db key r =
      let c₂ = aged expiry_now device.id r.row in
      let id_of_c₂ : c₂.command_id ≡ n =
        ground (arith, find?-test (of_device device.id n) db.commands r.found) in
      let keyed =
        subst
          (λ m.
            find? (has_key m q.idempotency_key)
              (expire_overdue uuid_text expiry_now device db).command_events
            ≡ some r.entry)
          (sym id_of_c₂)
          (find?-append_some (has_key n q.idempotency_key) db.command_events _ r.keyed) in
      (
        c₂,
        rw key (
            rw r.known (
              rw (find-expired device.id n expiry_now device.id db.commands r.found) (
                record_found_again now c₂ device (expire_overdue uuid_text expiry_now device db)
                  keyed r.same))),
      )

  -- What a first, accepted delivery says of its outcome.
  abbrev Fresh : String → ℕ → Result (Command × Bool) × Db → Type 0
  Fresh device_code n r =
      (c : Command) → r.0 ≡ ok (c, false) → (device : Device) × Recorded device_code device n r.1

  recorded_found :
      (device_code : String) (n now : ℕ) (c : Command) (device : Device) (db : Db)
      → find_device device_code db ≡ (ok device, db)
      → find? (of_device device.id n) db.commands ≡ some c
      → Fresh device_code n (record_found uuid_text value_text q now (c, device) db)
  recorded_found device_code n now c device db known found c' h =
      let (unused, accepted) = recorded_fresh now c device db h in
      let (status, e) = accepted in
      (
        device,
        subst (Recorded device_code device n) (sym e)
            (apply_event-Recorded device_code device n now status c db known found unused),
      )

  devices_expired :
      (now : ℕ) (device : Device) (db : Db)
      → (expire_overdue uuid_text now device db).devices ≡ db.devices
  unfolding expire_overdue
  devices_expired now device db = refl

  recorded :
      (device_code : String) (n expiry_now now : ℕ) (db : Db)
      → str_eq q.idempotency_key "" ≡ false
      → Fresh device_code n (record_event uuid_text value_text device_code n q expiry_now now db)
  unfolding record_event
  recorded device_code n expiry_now now db key = rw key (
      get_command_rule (Fresh device_code n) uuid_text device_code n expiry_now
        (record_found uuid_text value_text q now) db (λ e c h. cc) (λ e d c h. cc)
        λ device c known found.
          recorded_found device_code n now c device (expire_overdue uuid_text expiry_now device db)
            (find_device_elsewhere device_code db _ (devices_expired expiry_now device db) known)
            found)

  empty_key :
      (device_code : String) (n expiry_now now : ℕ) (db : Db) {c : Command}
      → str_eq q.idempotency_key "" ≡ true
      → (record_event uuid_text value_text device_code n q expiry_now now db).0 ≢ ok (c, false)
  unfolding record_event
  empty_key device_code n expiry_now now db key = rw key (λ h. cc)

  -- The gateway may send an event again: after it was accepted once, the same request is answered
  -- as a repetition at any later time, and it changes nothing but the expiry of overdue commands.
  pub event_repeated :
      (device_code : String) (n expiry_now now expiry_later later : ℕ) (db : Db) {c : Command}
      → (record_event uuid_text value_text device_code n q expiry_now now db).0 ≡ ok (c, false)
      → let db' = (record_event uuid_text value_text device_code n q expiry_now now db).1 in
        (device : Device) × (c' : Command) × (record_event uuid_text value_text device_code n q
            expiry_later later db'
          ≡ (ok (c', true), expire_overdue uuid_text expiry_later device db'))
  event_repeated device_code n expiry_now now expiry_later later db {c} h =
      elim (Bool-cases (str_eq q.idempotency_key "")) [
        | inl key ↦ absurd (empty_key device_code n expiry_now now db key h)
        | inr key ↦
            (let (device, r) = recorded device_code n expiry_now now db key c h in
              let (c', e) = again device_code n expiry_later later device _ key r in
              (device, c', e))
      ]
