-- ===== src/Rgb/Delivery/Progress.antt =====
-- The progress of a sequence: what an accepted event may change, and the invariant of the table.
use pages_to_rgb.Prelude.{
  ℕ, String, List, ◌≤◌, ◌≡◌, refl, Bool, true, false, not, Option, none, some, find?, update, arith,
  if_rule, option_rule, All, All-update, find?-All, leb, ◌==◌, str_eq, ap, sym, subst, ◌∙◌, ◌⊎◌,
  inl, inr, ◌||◌,
}
use pages_to_rgb.Common.Value.{same_fields}
use pages_to_rgb.Common.Exec.{Result, ok, err, app_error, Error, continue}
use pages_to_rgb.Rgb.Schemas.{RgbEventName, RgbResultCommand, result_cancelled, RgbSequenceStatus}
use pages_to_rgb.Rgb.Delivery.Binding.{SessionBinding}
use pages_to_rgb.Rgb.Delivery.Snapshot.{is_withdrawn}
use pages_to_rgb.Rgb.Delivery.Result.{
  get_or_create_delivery, of_session, write_delivery, create_delivery, advance_delivery,
}
use pages_to_rgb.Rgb.Delivery.Events.{
  RgbEvent, record_rgb_event, on_sequence, by_key, by_identity, accept, cancel_delivery, repeated,
  progress, refuses, named_sequence, has_sequence_id, event_audit,
}
use pages_to_rgb.Db.{Db, Delivery, Sequence, SequenceEvent, add_audit}

-- What an accepted event does to a sequence.
pub record Advances (q q' : Sequence) : Type 0 where
  pub deliverable : is_withdrawn q.status ≡ false
  pub forward : q.last_next_index ≤ q'.last_next_index
  pub bounded : q'.last_next_index ≤ q'.item_count
  pub same_items : q'.item_count ≡ q.item_count
  pub completed_stays :
      q.status ≡ RgbSequenceStatus.completed → q'.status ≡ RgbSequenceStatus.completed
  pub completed_full : q'.status ≡ RgbSequenceStatus.completed → q'.last_next_index ≡ q'.item_count
  pub never_ready : (q'.status ≡ RgbSequenceStatus.ready) → ⊥

-- The row of a sequence between two events.
pub record IsSequence (q : Sequence) : Type 0 where
  pub in_range : q.last_next_index ≤ q.item_count
  pub full : q.status ≡ RgbSequenceStatus.completed → q.last_next_index ≡ q.item_count

progress-Advances :
    (e : RgbEvent) (now : ℕ) (q : Sequence)
    → e.item_count ≡ q.item_count
    → e.next_index ≤ e.item_count
    → refuses e q ≡ false
    → IsSequence q
    → Advances q (progress e now q)
unfolding progress refuses
progress-Advances e now q c n r s = ground arith

module _ (uuid_text : ℕ → String) (binding : SessionBinding) (e : RgbEvent) (now : ℕ) where
  advance_keeps :
      (d : Delivery) (command : RgbResultCommand) (active : Option ℕ) (reason : Option String)
      (db : Db)
      → (advance_delivery uuid_text binding d command active reason now db).1.sequences
        ≡ db.sequences
  unfolding advance_delivery
  advance_keeps d command active reason db = ground arith

  delivery_keeps :
      (command : RgbResultCommand) (active : Option ℕ) (reason : Option String) (db : Db)
      → (get_or_create_delivery uuid_text binding command active reason now db).1.sequences
        ≡ db.sequences
  unfolding get_or_create_delivery write_delivery create_delivery
  delivery_keeps command active reason db =
      option_rule
        (λ o.
          (write_delivery uuid_text binding o command active reason now db).1.sequences
          ≡ db.sequences)
        (find? (of_session binding.session.id) db.deliveries) (λ _. refl)
        (λ d _. advance_keeps d command active reason db)

  -- An accepted event writes the advanced row; its answer is that row, unless the delivery of an
  -- `INVALID` event is refused.
  abbrev Accepted : Sequence → List Sequence → Result (Sequence × Bool) × Db → Type 0
  Accepted q rows r =
      (r.1.sequences ≡ update (has_sequence_id q.id) (λ _. progress e now q) rows)
      × ((r.0 ≡ ok (progress e now q, false)) ⊎ (x : Error) × (r.0 ≡ err x))

  continued :
      (q : Sequence) (rows : List Sequence) (r : Result (Unit {0}) × Db)
      → r.1.sequences ≡ update (has_sequence_id q.id) (λ _. progress e now q) rows
      → Accepted q rows (
          continue r.0
            (λ _ s. (
              ok (progress e now q, false),
              add_audit (event_audit binding e (progress e now q)) s,
            ))
            r.1)
  continued q rows (ok d, db) h = (h, inl refl)
  continued q rows (err c, db) h = (h, inr (c, refl))

  returned :
      (r : Result Delivery × Db)
      → (continue {S = Db} {B = Unit {0}} r.0 (λ _ s. (ok tt, s)) r.1).1 ≡ r.1
  returned (ok d, db) = refl
  returned (err c, db) = refl

  cancel_keeps :
      (n : RgbEventName) (db : Db)
      → (cancel_delivery uuid_text binding n now db).1.sequences ≡ db.sequences
  unfolding cancel_delivery
  cancel_keeps RgbEventName.invalid db =
      ap (λ (s : Db). s.sequences)
        (returned (
          get_or_create_delivery uuid_text binding result_cancelled none
            (some "RGB_SEQUENCE_INVALID_REPORTED_BY_DEVICE") now db))
      ∙ delivery_keeps result_cancelled none (some "RGB_SEQUENCE_INVALID_REPORTED_BY_DEVICE") db
  cancel_keeps _ db = refl

  accept_lem :
      (q : Sequence) (db : Db) → Accepted q db.sequences (accept uuid_text binding e now q db)
  unfolding accept
  accept_lem q db =
      continued q db.sequences (cancel_delivery uuid_text binding e.event now _)
        (cancel_keeps e.event _)

  -- The outcomes of an event on the sequence `q`: an error that changes no sequence, a replay that
  -- answers with the row as it is, or an accepted event.
  abbrev pub Outcome : Sequence → List Sequence → Result (Sequence × Bool) × Db → Type 0
  Outcome q rows r =
      ((x : Error) × (r.0 ≡ err x) × (r.1.sequences ≡ rows))
      ⊎ ((r.0 ≡ ok (q, true)) × (r.1.sequences ≡ rows))
      ⊎ (Advances q (progress e now q) × Accepted q rows r)

  refused-Outcome :
      (code : String) (status : ℕ) (q : Sequence) (db : Db)
      → Outcome q db.sequences (err (app_error code status), db)
  refused-Outcome code status q db = inl (app_error code status, refl, refl)

  repeated-Outcome :
      (old : SequenceEvent) (code : String) (q : Sequence) (db : Db)
      → Outcome q db.sequences (repeated old e code q db)
  unfolding repeated
  repeated-Outcome old code q db =
      if_rule (Outcome q db.sequences) (same_fields old.payload e.raw_payload) (ok (q, true), db)
        (err (app_error code 409), db) (λ _. inr (inl (refl, refl)))
        (λ _. refused-Outcome code 409 q db)

  by_identity-Outcome :
      (q : Sequence) (o : Option SequenceEvent) (db : Db)
      → e.item_count ≡ q.item_count
      → e.next_index ≤ e.item_count
      → IsSequence q
      → Outcome q db.sequences (by_identity uuid_text binding e now q o db)
  unfolding by_identity
  by_identity-Outcome q (some old) db c n s = repeated-Outcome old "RGB_SEQUENCE_CONFLICT" q db
  by_identity-Outcome q none db c n s =
      if_rule (Outcome q db.sequences) (refuses e q) _ _
        (λ _. refused-Outcome "RGB_SEQUENCE_CONFLICT" 409 q db)
        (λ r. inr (inr (progress-Advances e now q c n r s, accept_lem q db)))

  by_key-Outcome :
      (q : Sequence) (o : Option SequenceEvent) (db : Db)
      → e.item_count ≡ q.item_count
      → e.next_index ≤ e.item_count
      → IsSequence q
      → Outcome q db.sequences (by_key uuid_text binding e now q o db)
  unfolding by_key
  by_key-Outcome q (some old) db c n s =
      repeated-Outcome old "IDEMPOTENCY_KEY_REUSED_WITH_DIFFERENT_PAYLOAD" q db
  by_key-Outcome q none db c n s = by_identity-Outcome q _ db c n s

  known-Outcome :
      (q : Sequence) (db : Db)
      → IsSequence q
      → Outcome q db.sequences (on_sequence uuid_text binding e now (some q) db)
  unfolding on_sequence
  known-Outcome q db s =
      if_rule (Outcome q db.sequences)
        (not (e.item_count == q.item_count) || not (leb e.next_index e.item_count)) _ _
        (λ _. refused-Outcome "RGB_SEQUENCE_CONFLICT" 409 q db)
        (λ g. by_key-Outcome q _ db (ground arith) (ground arith) s)

  -- An event that names a sequence whose row is within its items, and played to its end if it is
  -- completed, has one of three outcomes. It is refused and no sequence changes; or it is a replay,
  -- answered with the row as it is, and no sequence changes; or it is accepted. An accepted event is
  -- for a sequence that is still deliverable: it never lowers the index, never passes the number of
  -- items, reaches it when the sequence completes, and never leaves the status completed.
  pub event_advances :
      (db : Db) {q : Sequence}
      → find? (named_sequence binding e) db.sequences ≡ some q
      → IsSequence q
      → Outcome q db.sequences (record_rgb_event uuid_text binding e now db)
  unfolding record_rgb_event
  event_advances db {q} found s =
      if_rule (Outcome q db.sequences) (not (str_eq e.session_id binding.session.public_id))
        (err (app_error "RGB_SEQUENCE_CONFLICT" 409), db)
        (on_sequence uuid_text binding e now (find? (named_sequence binding e) db.sequences) db)
        (λ _. refused-Outcome "RGB_SEQUENCE_CONFLICT" 409 q db)
        (λ _.
          subst (λ o. Outcome q db.sequences (on_sequence uuid_text binding e now o db)) (sym found)
            (known-Outcome q db s))

  Advances-IsSequence : {q q' : Sequence} → Advances q q' → IsSequence q'
  Advances-IsSequence a = record { in_range = a.bounded; full = a.completed_full }

  unnamed :
      (db : Db)
      → find? (named_sequence binding e) db.sequences ≡ none
      → (record_rgb_event uuid_text binding e now db).1.sequences ≡ db.sequences
  unfolding record_rgb_event on_sequence
  unnamed db none_found = rw none_found (ground arith)

  from-Outcome :
      (db : Db) (q : Sequence) (r : Result (Sequence × Bool) × Db)
      → All IsSequence db.sequences
      → Outcome q db.sequences r
      → All IsSequence r.1.sequences
  from-Outcome db q (_, _) h (inl (_, _, same)) = subst (All IsSequence) (sym same) h
  from-Outcome db q (_, _) h (inr (inl (_, same))) = subst (All IsSequence) (sym same) h
  from-Outcome db q (_, _) h (inr (inr (a, (moved, _)))) = subst (All IsSequence) (sym moved) (
      All-update IsSequence (has_sequence_id _) (λ _. progress e now _) db.sequences
        (λ _ _ _. Advances-IsSequence a) h)

  -- Every sequence of the table stays within its items, and a completed one is played to its end,
  -- whatever events arrive.
  pub event-IsSequence :
      (db : Db)
      → All IsSequence db.sequences
      → All IsSequence (record_rgb_event uuid_text binding e now db).1.sequences
  event-IsSequence db h =
      option_rule
        (λ o.
          find? (named_sequence binding e) db.sequences ≡ o
          → All IsSequence (record_rgb_event uuid_text binding e now db).1.sequences)
        (find? (named_sequence binding e) db.sequences)
        (λ _ none_found. subst (All IsSequence) (sym (unnamed db none_found)) h)
        (λ q _ found.
          from-Outcome db q (record_rgb_event uuid_text binding e now db) h
            (event_advances db found (find?-All IsSequence _ db.sequences h found)))
        refl
