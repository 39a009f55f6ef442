-- ===== src/Rgb/Delivery/Events.antt =====
-- rgb/delivery.py: `record_rgb_event`, the progress that the firmware reports on a sequence.
-- The index in a request is at least 0, as the schema of its body asks.
use pages_to_rgb.Prelude.{
  ℕ, String, Bool, true, false, not, ◌&&◌, ◌||◌, Option, none, some, [], ◌∷◌, ◌++◌, find?, update,
  leb, ltb, ◌==◌, max, str_eq, if◌then◌else◌,
}
use pages_to_rgb.Common.Value.{num, text, Fields, end, field, same_fields}
use pages_to_rgb.Common.Exec.{Exec, ok, err, app_error, ◌>>=◌}
use pages_to_rgb.Rgb.Schemas.{RgbEventName, event_name, RgbSequenceStatus, result_cancelled}
use pages_to_rgb.Rgb.Delivery.Binding.{SessionBinding}
use pages_to_rgb.Rgb.Delivery.Result.{get_or_create_delivery}
use pages_to_rgb.Rgb.Delivery.Snapshot.{is_withdrawn}
use pages_to_rgb.Db.{Db, Sequence, SequenceEvent, EventIdentity, AuditEvent, add_audit}

abbrev pub same_event : RgbEventName → RgbEventName → Bool
same_event RgbEventName.received RgbEventName.received = true
same_event RgbEventName.started RgbEventName.started = true
same_event RgbEventName.resumed RgbEventName.resumed = true
same_event RgbEventName.completed RgbEventName.completed = true
same_event RgbEventName.invalid RgbEventName.invalid = true
same_event _ _ = false

abbrev pub same_status : RgbSequenceStatus → RgbSequenceStatus → Bool
same_status RgbSequenceStatus.ready RgbSequenceStatus.ready = true
same_status RgbSequenceStatus.received RgbSequenceStatus.received = true
same_status RgbSequenceStatus.playing RgbSequenceStatus.playing = true
same_status RgbSequenceStatus.completed RgbSequenceStatus.completed = true
same_status RgbSequenceStatus.invalid RgbSequenceStatus.invalid = true
same_status RgbSequenceStatus.superseded RgbSequenceStatus.superseded = true
same_status _ _ = false

-- What a request brings.
pub record RgbEvent : Type 0 where
  pub session_id : String
  pub sequence_id : String
  pub revision : ℕ
  pub event : RgbEventName
  pub next_index : ℕ
  pub item_count : ℕ
  pub idempotency_key : Option String
  pub raw_payload : Fields

identity_suffix : RgbEventName → ℕ → Option ℕ
identity_suffix RgbEventName.completed n = none
identity_suffix _ n = some n

-- `_event_identity`
unfoldable pub event_identity : SessionBinding → Sequence → RgbEventName → ℕ → EventIdentity
unfolding identity_suffix
event_identity binding q event next_index = record {
  device_id = binding.device.id;
  sequence_id = q.id;
  revision = q.revision;
  event = event;
  suffix = identity_suffix event next_index;
}

same_suffix : Option ℕ → Option ℕ → Bool
same_suffix none none = true
same_suffix (some a) (some b) = a == b
same_suffix _ _ = false

unfoldable pub same_identity : EventIdentity → EventIdentity → Bool
unfolding same_suffix
same_identity a b =
    (a.device_id == b.device_id)
    && (a.sequence_id == b.sequence_id)
    && (a.revision == b.revision)
    && same_event a.event b.event
    && same_suffix a.suffix b.suffix

abbrev has_text : Option String → String → Bool
has_text none k = false
has_text (some j) k = str_eq j k

abbrev pub keyed_event : ℕ → String → SequenceEvent → Bool
keyed_event gateway_id key e = has_text e.idempotency_key key && (e.gateway_id == gateway_id)

-- The event that an `Idempotency-Key`, if it is given and not empty, names.
unfoldable pub key_event : Option String → ℕ → Db → Option SequenceEvent
key_event none gateway_id db = none
key_event (some key) gateway_id db =
    if str_eq key "" then none else find? (keyed_event gateway_id key) db.sequence_events

-- The status after an accepted event.
unfoldable pub status_after : RgbEventName → RgbSequenceStatus
status_after RgbEventName.received = RgbSequenceStatus.received
status_after RgbEventName.started = RgbSequenceStatus.playing
status_after RgbEventName.resumed = RgbSequenceStatus.playing
status_after RgbEventName.completed = RgbSequenceStatus.completed
status_after RgbEventName.invalid = RgbSequenceStatus.invalid

completion_time : RgbEventName → Option ℕ → ℕ → Option ℕ
completion_time RgbEventName.completed old now = some now
completion_time _ old now = old

unfoldable pub progress : RgbEvent → ℕ → Sequence → Sequence
unfolding status_after completion_time
progress e now q = record q {
  last_next_index = max q.last_next_index e.next_index;
  status = status_after e.event;
  completed_at = completion_time e.event q.completed_at now;
}

-- The checks after the two queries for a repetition, in their order; `true` refuses the event.
unfoldable pub refuses : RgbEvent → Sequence → Bool
unfolding is_withdrawn
refuses e q =
    is_withdrawn q.status
    || (same_status q.status RgbSequenceStatus.completed
        && not (same_event e.event RgbEventName.completed))
    || (same_event e.event RgbEventName.received
        && not (same_status q.status RgbSequenceStatus.ready))
    || ltb e.next_index q.last_next_index
    || (same_event e.event RgbEventName.completed && not (e.next_index == e.item_count))

abbrev pub has_sequence_id : ℕ → Sequence → Bool
has_sequence_id n q = q.id == n

abbrev pub event_row : SessionBinding → RgbEvent → Sequence → SequenceEvent
event_row binding e q = record {
  rgb_sequence_id = q.id;
  device_id = binding.device.id;
  gateway_id = binding.gateway.id;
  event = e.event;
  next_index = e.next_index;
  item_count = e.item_count;
  idempotency_key = e.idempotency_key;
  event_identity = event_identity binding q e.event e.next_index;
  payload = e.raw_payload;
}

abbrev pub audit_type : RgbEventName → String
audit_type RgbEventName.invalid = "RGB_SEQUENCE_INVALID"
audit_type _ = "RGB_SEQUENCE_EVENT_RECEIVED"

abbrev pub audit_severity : RgbEventName → String
audit_severity RgbEventName.invalid = "error"
audit_severity _ = "info"

abbrev pub event_audit : SessionBinding → RgbEvent → Sequence → AuditEvent
event_audit binding e q = record {
  session_id = some binding.session.id;
  event_type = audit_type e.event;
  stage = "system";
  severity = audit_severity e.event;
  reason_code = none;
  actor_type = "gateway";
  payload = field "sequence_id" (text q.sequence_id) (
      field "revision" (num q.revision) (
        field "event" (text (event_name e.event))
          (field "next_index" (num e.next_index) (field "item_count" (num e.item_count) end))));
}

-- The answer to an event that was recorded before.
unfoldable pub repeated : SequenceEvent → RgbEvent → String → Sequence → Exec Db (Sequence × Bool)
repeated old e code q db =
    if same_fields old.payload e.raw_payload
    then (ok (q, true), db)
    else (err (app_error code 409), db)

abbrev pub named_sequence : SessionBinding → RgbEvent → Sequence → Bool
named_sequence binding e q =
    (q.session_id == binding.session.id)
    && str_eq q.sequence_id e.sequence_id
    && (q.revision == e.revision)

module _ (uuid_text : ℕ → String) where
  -- An `INVALID` event cancels the result; the other events leave it.
  unfoldable pub cancel_delivery : SessionBinding → RgbEventName → ℕ → Exec Db (Unit {0})
  cancel_delivery binding RgbEventName.invalid now db =
      (get_or_create_delivery uuid_text binding result_cancelled none
            (some "RGB_SEQUENCE_INVALID_REPORTED_BY_DEVICE") now
          >>= λ _ s. (ok tt, s))
        db
  cancel_delivery binding _ now db = (ok tt, db)

  unfoldable pub accept : SessionBinding → RgbEvent → ℕ → Sequence → Exec Db (Sequence × Bool)
  accept binding e now q db =
      let q' = progress e now q in
      (cancel_delivery binding e.event now >>= λ _ s.
      (ok (q', false), add_audit (event_audit binding e q') s))
        (record db {
          sequences = update (has_sequence_id q.id) (λ _. q') db.sequences;
          sequence_events = db.sequence_events ++ event_row binding e q ∷ [];
        })

  unfoldable pub by_identity :
      SessionBinding → RgbEvent → ℕ → Sequence → Option SequenceEvent → Exec Db (Sequence × Bool)
  by_identity binding e now q none db =
      if refuses e q
      then (err (app_error "RGB_SEQUENCE_CONFLICT" 409), db)
      else accept binding e now q db
  by_identity binding e now q (some old) db = repeated old e "RGB_SEQUENCE_CONFLICT" q db

  unfoldable pub by_key :
      SessionBinding → RgbEvent → ℕ → Sequence → Option SequenceEvent → Exec Db (Sequence × Bool)
  by_key binding e now q none db =
      let identity = event_identity binding q e.event e.next_index in
      by_identity binding e now q
        (find? (λ (old : SequenceEvent). same_identity old.event_identity identity)
          db.sequence_events)
        db
  by_key binding e now q (some old) db =
      repeated old e "IDEMPOTENCY_KEY_REUSED_WITH_DIFFERENT_PAYLOAD" q db

  unfoldable pub on_sequence :
      SessionBinding → RgbEvent → ℕ → Option Sequence → Exec Db (Sequence × Bool)
  unfolding key_event
  on_sequence binding e now none db = (err (app_error "RGB_SEQUENCE_NOT_FOUND" 404), db)
  on_sequence binding e now (some q) db =
      if not (e.item_count == q.item_count) || not (leb e.next_index e.item_count)
      then (err (app_error "RGB_SEQUENCE_CONFLICT" 409), db)
      else by_key binding e now q (key_event e.idempotency_key binding.gateway.id db) db

  unfoldable pub record_rgb_event : SessionBinding → RgbEvent → ℕ → Exec Db (Sequence × Bool)
  record_rgb_event binding e now db =
      if not (str_eq e.session_id binding.session.public_id)
      then (err (app_error "RGB_SEQUENCE_CONFLICT" 409), db)
      else on_sequence binding e now (find? (named_sequence binding e) db.sequences) db
