-- ===== src/Rgb/Schemas.antt =====
-- rgb/schemas.py: the enumerations of the RGB result channel, and the payload that the firmware
-- reads. A field that Pydantic checks is a plain field here, and the checks are `is_valid`.
use pages_to_rgb.Prelude.{
  ℕ, String, Bool, true, false, not, ◌&&◌, Option, none, some, List, [], ◌∷◌, length, any, leb, ltb,
  ◌==◌,
}

pub data AnswerLetter : Type 0 where
  letter_a letter_b letter_c letter_d letter_e : AnswerLetter

pub data RgbResultCommand : Type 0 where
  result_not_started result_processing rgb_sequence_ready result_cancelled : RgbResultCommand

abbrev pub command_name : RgbResultCommand → String
command_name result_not_started = "RESULT_NOT_STARTED"
command_name result_processing = "RESULT_PROCESSING"
command_name rgb_sequence_ready = "RGB_SEQUENCE_READY"
command_name result_cancelled = "RESULT_CANCELLED"

abbrev pub same_command : RgbResultCommand → RgbResultCommand → Bool
same_command result_not_started result_not_started = true
same_command result_processing result_processing = true
same_command rgb_sequence_ready rgb_sequence_ready = true
same_command result_cancelled result_cancelled = true
same_command _ _ = false

pub data RgbEventName : Type 0 where
  received started resumed completed invalid : RgbEventName

abbrev pub event_name : RgbEventName → String
event_name received = "RECEIVED"
event_name started = "STARTED"
event_name resumed = "RESUMED"
event_name completed = "COMPLETED"
event_name invalid = "INVALID"

pub data RgbSequenceStatus : Type 0 where
  ready received playing completed invalid superseded : RgbSequenceStatus

pub record Rgb : Type 0 where
  pub r : ℕ
  pub g : ℕ
  pub b : ℕ

pub record RgbDefaults : Type 0 where
  pub brightness_percent : ℕ
  pub on_ms : ℕ
  pub off_ms : ℕ

pub record RgbOverride : Type 0 where
  pub index : ℕ
  pub rgb : Option Rgb
  pub brightness_percent : Option ℕ
  pub on_ms : Option ℕ
  pub off_ms : Option ℕ

-- A palette has exactly the letters A to E, as `validate_palette` asks.
abbrev pub Palette : Type 0
Palette = AnswerLetter → Rgb

pub record RgbSequencePayload : Type 0 where
  pub schema_version : ℕ
  pub session_id : String
  pub sequence_id : String
  pub revision : ℕ
  pub item_count : ℕ
  pub sha256 : String
  pub answers : List AnswerLetter
  pub defaults : RgbDefaults
  pub palette : Palette
  pub overrides : List RgbOverride

abbrev pub between : ℕ → ℕ → ℕ → Bool
between lo hi n = leb lo n && leb n hi

abbrev pub optional : (ℕ → Bool) → Option ℕ → Bool
optional p none = true
optional p (some n) = p n

unfoldable pub validate_rgb : Rgb → Bool
validate_rgb c = leb c.r 255 && leb c.g 255 && leb c.b 255

unfoldable pub validate_override_rgb : Option Rgb → Bool
unfolding validate_rgb
validate_override_rgb none = true
validate_override_rgb (some c) = validate_rgb c

unfoldable pub validate_defaults : RgbDefaults → Bool
validate_defaults d =
    leb d.brightness_percent 100 && between 100 60000 d.on_ms && leb d.off_ms 60000

unfoldable pub validate_override : RgbOverride → Bool
unfolding validate_override_rgb
validate_override o =
    leb o.index 999
    && validate_override_rgb o.rgb
    && optional (λ n. leb n 100) o.brightness_percent
    && optional (between 100 60000) o.on_ms
    && optional (λ n. leb n 60000) o.off_ms

unfoldable pub every : (RgbOverride → Bool) → List RgbOverride → Bool
every p [] = true
every p (o ∷ os) = p o && every p os

-- `len(indexes) != len(set(indexes))`, the other way round.
unfoldable pub distinct_indexes : List RgbOverride → Bool
distinct_indexes [] = true
distinct_indexes (o ∷ os) = not (any (λ p. p.index == o.index) os) && distinct_indexes os

-- The range checks of the fields, and the checks of `validate_payload`. The patterns of the two
-- ids and of the digest are not here: see the header of the library.
unfoldable pub validate_payload : RgbSequencePayload → Bool
unfolding validate_rgb validate_override_rgb validate_defaults validate_override every
    distinct_indexes
validate_payload p =
    (p.schema_version == 1)
    && leb 1 p.revision
    && between 1 1000 p.item_count
    && validate_defaults p.defaults
    && (validate_rgb (p.palette letter_a)
        && validate_rgb (p.palette letter_b)
        && validate_rgb (p.palette letter_c)
        && validate_rgb (p.palette letter_d)
        && validate_rgb (p.palette letter_e))
    && every validate_override p.overrides
    && (p.item_count == length p.answers)
    && distinct_indexes p.overrides
    && every (λ o. ltb o.index p.item_count) p.overrides
