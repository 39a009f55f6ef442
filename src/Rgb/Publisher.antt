-- ===== src/Rgb/Publisher.antt =====
-- rgb/publisher.py: a workflow's result becomes a revision for the firmware, or its cancellation.
-- `rows` is what the query of a session's questions and final answers (`answer_rows`) returns; the id and the public
-- id of a new row, its JSON size, the digest, Python's `int` and the parsing of a colour (pydantic)
-- are parameters.
pub mod Bound
use pages_to_rgb.Prelude.{
  ℕ, String, Bool, true, false, not, ◌&&◌, Option, none, some, List, [], ◌∷◌, find?, update, select,
  map, ltb, leb, ◌==◌, ◌+◌, length, str_eq, if◌then◌else◌,
}
use pages_to_rgb.Common.Value.{num, text, end, field}
use pages_to_rgb.Common.Exec.{Exec, ok, err, app_error}
use pages_to_rgb.Rgb.Schemas.{
  letter_a, letter_b, letter_c, letter_d, letter_e, Rgb, RgbDefaults, Palette, RgbSequencePayload,
  RgbResultCommand, rgb_sequence_ready, result_cancelled, RgbSequenceStatus,
}
use pages_to_rgb.Rgb.Policy.{AnswerCandidate}
use pages_to_rgb.Rgb.Canonical.{canonical_items_bytes}
use pages_to_rgb.Rgb.Delivery.Binding.{SessionBinding}
use pages_to_rgb.Rgb.Delivery.Snapshot.{is_withdrawn}
use pages_to_rgb.Rgb.Delivery.Events.{has_sequence_id}
use pages_to_rgb.Db.{Db, Session, Device, Gateway, Sequence, AuditEvent, Question, FinalAnswer}

pub record RgbSettings : Type 0 where
  pub rgb_results_enabled : Bool
  pub rgb_sequence_max_items : ℕ
  pub rgb_sequence_max_json_bytes : ℕ
  pub rgb_defaults : RgbDefaults

pub record RgbPublicationResult : Type 0 where
  pub sequence : Option Sequence
  pub command : RgbResultCommand
  pub reason_code : Option String
  pub reused : Bool

colour : ℕ → ℕ → ℕ → Rgb
colour r g b = record { r = r; g = g; b = b }

unfoldable pub default_palette : Palette
unfolding colour
default_palette letter_a = colour 255 255 255
default_palette letter_b = colour 255 255 0
default_palette letter_c = colour 0 255 255
default_palette letter_d = colour 0 0 255
default_palette letter_e = colour 255 0 0

unfoldable pub handwritten_palette : Palette
unfolding colour
handwritten_palette letter_a = colour 0 0 255
handwritten_palette letter_b = colour 255 0 0
handwritten_palette letter_c = colour 0 255 0
handwritten_palette letter_d = colour 128 0 128
handwritten_palette letter_e = colour 255 255 0

join_device : Option Session → Db → Option SessionBinding
join_device none db = none
join_device (some s) db =
    join (find? (λ (d : Device). s.device_id == d.id) db.devices)
      (find? (λ (g : Gateway). s.gateway_id == g.id) db.gateways)
  where
    join : Option Device → Option Gateway → Option SessionBinding
    join (some d) (some g) = some (record { session = s; device = d; gateway = g })
    join _ _ = none

bound_or_missing : Option SessionBinding → Exec Db SessionBinding
bound_or_missing none db = (err (app_error "SESSION_NOT_FOUND" 404), db)
bound_or_missing (some b) db = (ok b, db)

unfoldable pub internal_binding : String → Exec Db SessionBinding
unfolding join_device bound_or_missing
internal_binding session_public_id db =
    bound_or_missing
      (join_device (find? (λ (s : Session). str_eq s.public_id session_public_id) db.sessions) db)
      db

-- `outerjoin` with the final answers, which have one row for a question at most, and `order_by`.
with_answer : List FinalAnswer → Question → Question × Option FinalAnswer
with_answer answers q = (q, find? (λ (a : FinalAnswer). a.question_id == q.id) answers)

by_number : Question → List Question → List Question
by_number q [] = q ∷ []
by_number q (p ∷ ps) =
    let rest = by_number q ps in
    if leb q.question_number p.question_number then q ∷ p ∷ ps else p ∷ rest

ordered : List Question → List Question
unfolding by_number
ordered [] = []
ordered (q ∷ qs) = by_number q (ordered qs)

unfoldable pub answer_rows : ℕ → Db → List (Question × Option FinalAnswer)
unfolding with_answer ordered
answer_rows session_id db =
    map (with_answer db.final_answers)
      (ordered (select (λ (q : Question). q.session_id == session_id) db.questions))

-- The candidates, made of the rows of the query.
unfoldable pub candidate : Question × Option FinalAnswer → AnswerCandidate
candidate (q, none) = record {
  question_number = q.question_number;
  answer = none;
  validated = false;
  question_status = q.status;
}
candidate (q, some final) = record {
  question_number = q.question_number;
  answer = final.answer;
  validated = final.validated;
  question_status = q.status;
}

-- `ORDER BY revision DESC LIMIT 1` among the rows that satisfy a test.
unfoldable pub later : Sequence → Option Sequence → Sequence
later q none = q
later q (some other) = if ltb q.revision other.revision then other else q

unfoldable pub latest : (Sequence → Bool) → List Sequence → Option Sequence
unfolding later
latest p [] = none
latest p (q ∷ qs) = let rest = latest p qs in if p q then some (later q rest) else rest

unfoldable pub next_revision : Option Sequence → ℕ
next_revision none = 1
next_revision (some q) = q.revision + 1

-- `READY`, `RECEIVED` or `PLAYING`.
unfoldable pub is_open : RgbSequenceStatus → Bool
is_open RgbSequenceStatus.ready = true
is_open RgbSequenceStatus.received = true
is_open RgbSequenceStatus.playing = true
is_open _ = false

superseded : Sequence → Sequence
superseded q = record q { status = RgbSequenceStatus.superseded }

unfoldable pub supersede : Option Sequence → List Sequence → List Sequence
unfolding superseded
supersede none rows = rows
supersede (some q) rows =
    if is_open q.status then update (has_sequence_id q.id) (λ _. superseded q) rows else rows

abbrev pub in_session : ℕ → Sequence → Bool
in_session n q = q.session_id == n

abbrev pub same_content : ℕ → String → Sequence → Bool
same_content n sha q =
    (q.session_id == n) && str_eq q.payload_sha256 sha && not (is_withdrawn q.status)

-- `len` of the canonical bytes.
abbrev bytes_size : Option (List ℕ) → ℕ
bytes_size none = 0
bytes_size (some bytes) = length bytes

abbrev pub new_sequence : ℕ → ℕ → ℕ → RgbSequencePayload → Sequence
new_sequence id session_id now p = record {
  id = id;
  sequence_id = p.sequence_id;
  session_id = session_id;
  revision = p.revision;
  schema_version = p.schema_version;
  status = RgbSequenceStatus.ready;
  answers = p.answers;
  item_count = p.item_count;
  defaults = p.defaults;
  palette = p.palette;
  overrides = p.overrides;
  payload_sha256 = p.sha256;
  payload_size = bytes_size (canonical_items_bytes p);
  last_next_index = 0;
  ready_at = some now;
  completed_at = none;
}

abbrev pub cancelled_result : String → RgbPublicationResult
cancelled_result reason = record {
  sequence = none;
  command = result_cancelled;
  reason_code = some reason;
  reused = false;
}

abbrev pub ready_result : Sequence → Bool → RgbPublicationResult
ready_result q reused = record {
  sequence = some q;
  command = rgb_sequence_ready;
  reason_code = none;
  reused = reused;
}

abbrev pub invalid_audit : SessionBinding → String → AuditEvent
invalid_audit binding reason = record {
  session_id = some binding.session.id;
  event_type = "RGB_SEQUENCE_INVALID";
  stage = "system";
  severity = "warning";
  reason_code = some reason;
  actor_type = "workflow";
  payload = field "expected_questions" (num binding.session.expected_questions) end;
}

abbrev pub published_audit : SessionBinding → Sequence → AuditEvent
published_audit binding q = record {
  session_id = some binding.session.id;
  event_type = "RGB_SEQUENCE_PUBLISHED";
  stage = "system";
  severity = "info";
  reason_code = none;
  actor_type = "workflow";
  payload = field "sequence_id" (text q.sequence_id) (
      field "revision" (num q.revision) (
        field "item_count" (num q.item_count)
          (field "payload_sha256" (text q.payload_sha256) end)));
}
