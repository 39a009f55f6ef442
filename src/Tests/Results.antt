-- ===== src/Tests/Results.antt =====
-- The result channel on sample data.
use pages_to_rgb.Prelude.{
  ℕ, String, ◌≡◌, refl, true, Option, none, some, List, [], ◌∷◌, inr, get_elem?, arith,
}
use pages_to_rgb.Common.Value.{Value, end}
use pages_to_rgb.Common.Exec.{ok}
use pages_to_rgb.Session.State.{solving, cancelled, ready}
use pages_to_rgb.Rgb.Schemas.{
  RgbEventName, result_cancelled, letter_a, letter_b, Rgb, RgbSequencePayload, validate_payload,
  validate_rgb, validate_override_rgb, validate_override, validate_defaults, every,
  distinct_indexes,
}
use pages_to_rgb.Rgb.Policy.{AnswerCandidate}
use pages_to_rgb.Rgb.Canonical.{
  canonical_items_bytes, validate_payload_sha256, same_digest, payload_sha256, digest,
  pack_resolved, pack_items, pack_item, pack_byte, pack_int, letter_code, ResolvedRgbItem,
  resolved_items, default_item, apply_overrides, write_item, overridden,
}
use pages_to_rgb.Rgb.Overrides.{resolved_item_at, override_at}
use pages_to_rgb.Rgb.Packing.{canonical_bytes_read_back, unpack}
use pages_to_rgb.Rgb.Delivery.Snapshot.{result_snapshot, is_withdrawn}
use pages_to_rgb.Rgb.Delivery.Result.{get_or_create_delivery, changed}
use pages_to_rgb.Rgb.Delivery.Cursor.{poll_sees_change_once, visible_command}
use pages_to_rgb.Rgb.Delivery.Events.{RgbEvent, record_rgb_event}
use pages_to_rgb.Rgb.Delivery.Sequences.{get_sequence_for_binding, sequence_payload, payload_of}
use pages_to_rgb.Rgb.Delivery.Progress.{event_advances, Outcome, IsSequence}
use pages_to_rgb.Rgb.Publisher.{RgbSettings, cancelled_result}
use pages_to_rgb.Rgb.Publish.{publish_rgb, cancel_result}
use pages_to_rgb.Rgb.Published.{published_is_shown}
use pages_to_rgb.Tests.Data.{
  uuid_text, binding_in, db_in, delivery, defaults, palette, override, payload, sequence,
}

poll_sees_change_once_example :
    result_snapshot
      (binding_in solving)
      5
      (get_or_create_delivery uuid_text
        (binding_in solving)
        result_cancelled
        none
        none
        9
        (db_in solving)).1
    ≡ none
unfolding changed
poll_sees_change_once_example =
    (poll_sees_change_once uuid_text (binding_in solving) result_cancelled none none 9
      (db_in solving) refl refl refl refl).1

abbrev received : RgbEvent
received = record {
  session_id = "s1";
  sequence_id = "rgb-1";
  revision = 1;
  event = RgbEventName.received;
  next_index = 0;
  item_count = 2;
  idempotency_key = none;
  raw_payload = end;
}

sequence-IsSequence : IsSequence sequence
sequence-IsSequence = record { in_range = omega arith; full = λ h. cc h }

event_advances_example :
    Outcome uuid_text
      (binding_in ready)
      received
      9
      sequence
      (sequence ∷ [])
      (record_rgb_event uuid_text (binding_in ready) received 9 (db_in ready))
event_advances_example =
    event_advances uuid_text (binding_in ready) received 9 (db_in ready) refl sequence-IsSequence

abbrev candidate_for : ℕ → String → AnswerCandidate
candidate_for n letter = record {
  question_number = n;
  answer = some letter;
  validated = true;
  question_status = "COMPLETE";
}

abbrev two_candidates : List AnswerCandidate
two_candidates = candidate_for 2 "B" ∷ candidate_for 1 "A" ∷ []

payload_valid : validate_payload payload ≡ true
unfolding validate_payload validate_rgb validate_override_rgb validate_override validate_defaults
    every distinct_indexes
payload_valid = refl

canonical_bytes_read_back_example :
    unpack (canonical_bytes_read_back payload payload_valid).1
    ≡ (canonical_bytes_read_back payload payload_valid).0
canonical_bytes_read_back_example = (canonical_bytes_read_back payload payload_valid).5

abbrev two_items : List ResolvedRgbItem
two_items =
    record {
      answer = letter_a;
      r = 255;
      g = 255;
      b = 255;
      brightness_percent = 12;
      on_ms = 3000;
      off_ms = 5000;
    }
    ∷ record {
      answer = letter_b;
      r = 255;
      g = 255;
      b = 255;
      brightness_percent = 50;
      on_ms = 3000;
      off_ms = 5000;
    }
    ∷ []

payload_resolved : resolved_items payload ≡ some two_items
unfolding resolved_items apply_overrides write_item overridden default_item
payload_resolved = refl

resolved_item_at_example :
    get_elem? two_items 1
    ≡ some (override_at (override ∷ []) 1 (default_item defaults palette letter_b))
resolved_item_at_example = resolved_item_at payload 1 payload_valid payload_resolved refl

abbrev pub settings : RgbSettings
settings = record {
  rgb_results_enabled = true;
  rgb_sequence_max_items = 1000;
  rgb_sequence_max_json_bytes = 262144;
  rgb_defaults = defaults;
}

abbrev pub no_digest : List ℕ → String
no_digest bytes = ""

abbrev pub json_size : RgbSequencePayload → ℕ
json_size p = 100

abbrev pub no_int : Value → Option ℕ
no_int v = none

abbrev pub no_colour : Value → Option Rgb
no_colour v = none

published_is_shown_example :
    visible_command
      (binding_in cancelled)
      (publish_rgb uuid_text no_digest json_size settings
        (binding_in cancelled)
        9
        6
        "rgb-2"
        no_int
        no_colour
        []
        (db_in cancelled)).1
    ≡ some result_cancelled
unfolding publish_rgb cancel_result get_or_create_delivery changed
published_is_shown_example =
    published_is_shown uuid_text no_digest json_size settings (binding_in cancelled) 9 6 "rgb-2"
      no_int no_colour [] (db_in cancelled) {answer = cancelled_result "SESSION_CANCELLED"}
      (inr (delivery, refl, refl)) refl

sequence_downloads :
    (get_sequence_for_binding no_digest json_size 262144 (binding_in ready) "rgb-1" (db_in ready)).0
    ≡ ok (payload_of sequence "s1")
unfolding get_sequence_for_binding sequence_payload payload_of validate_payload validate_rgb
    validate_override_rgb validate_override validate_defaults every distinct_indexes
    validate_payload_sha256 is_withdrawn same_digest payload_sha256 digest canonical_items_bytes
    resolved_items apply_overrides pack_resolved pack_items pack_item pack_byte pack_int letter_code
    default_item
sequence_downloads = refl
