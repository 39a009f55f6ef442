-- ===== src/Rgb/Canonical.antt =====
-- rgb/canonical.py: the items of a sequence as the firmware plays them, and the bytes of them that
-- its SHA-256 is taken of. A write out of range is an IndexError and a number that does not fit its
-- field is a struct.error: both are `none`. The digest and the JSON text are parameters.
use pages_to_rgb.Prelude.{
  ℕ, String, Bool, false, Option, none, some, List, [], ◌∷◌, ◌++◌, map, ltb, ◌/◌, ◌%◌, get_elem?,
  set, length, str_eq, if◌then◌else◌,
}
use pages_to_rgb.Rgb.Schemas.{
  AnswerLetter, letter_a, letter_b, letter_c, letter_d, letter_e, Rgb, RgbDefaults, RgbOverride,
  Palette, RgbSequencePayload, validate_payload,
}

pub record ResolvedRgbItem : Type 0 where
  pub answer : AnswerLetter
  pub r : ℕ
  pub g : ℕ
  pub b : ℕ
  pub brightness_percent : ℕ
  pub on_ms : ℕ
  pub off_ms : ℕ

unfoldable pub default_item : RgbDefaults → Palette → AnswerLetter → ResolvedRgbItem
default_item defaults palette letter = record {
  answer = letter;
  r = (palette letter).r;
  g = (palette letter).g;
  b = (palette letter).b;
  brightness_percent = defaults.brightness_percent;
  on_ms = defaults.on_ms;
  off_ms = defaults.off_ms;
}

abbrev pub given : Option ℕ → ℕ → ℕ
given none old = old
given (some n) old = n

abbrev pub given_rgb : Option Rgb → ResolvedRgbItem → Rgb
given_rgb none old = record { r = old.r; g = old.g; b = old.b }
given_rgb (some c) old = c

unfoldable pub overridden : RgbOverride → ResolvedRgbItem → ResolvedRgbItem
overridden o current =
    let c = given_rgb o.rgb current in
    record {
      answer = current.answer;
      r = c.r;
      g = c.g;
      b = c.b;
      brightness_percent = given o.brightness_percent current.brightness_percent;
      on_ms = given o.on_ms current.on_ms;
      off_ms = given o.off_ms current.off_ms;
    }

unfoldable pub write_item :
    RgbOverride → List ResolvedRgbItem → Option ResolvedRgbItem → Option (List ResolvedRgbItem)
write_item o items none = none
write_item o items (some current) = some (set items o.index (overridden o current))

unfoldable pub apply_overrides :
    List RgbOverride → Option (List ResolvedRgbItem) → Option (List ResolvedRgbItem)
apply_overrides [] items = items
apply_overrides (o ∷ os) none = none
apply_overrides (o ∷ os) (some items) =
    apply_overrides os (write_item o items (get_elem? items o.index))

unfoldable pub resolved_items : RgbSequencePayload → Option (List ResolvedRgbItem)
resolved_items p =
    apply_overrides p.overrides (some (map (default_item p.defaults p.palette) p.answers))

-- `ord`
unfoldable pub letter_code : AnswerLetter → ℕ
letter_code letter_a = 65
letter_code letter_b = 66
letter_code letter_c = 67
letter_code letter_d = 68
letter_code letter_e = 69

-- The fields `B` and `I` of a little-endian struct.
unfoldable pub pack_byte : ℕ → Option (List ℕ)
pack_byte n = if ltb n 256 then some (n ∷ []) else none

unfoldable pub pack_int : ℕ → Option (List ℕ)
pack_int n =
    if ltb n 4294967296
    then some (n % 256 ∷ n / 256 % 256 ∷ n / 65536 % 256 ∷ n / 16777216 ∷ [])
    else none

infixl 20 ◌then_pack◌
abbrev pub ◌then_pack◌ : Option (List ℕ) → Option (List ℕ) → Option (List ℕ)
none then_pack y = none
(some x) then_pack none = none
(some x) then_pack (some y) = some (x ++ y)

-- `struct.pack("<BBBBBII", ...)`
unfoldable pub pack_item : ResolvedRgbItem → Option (List ℕ)
unfolding pack_byte pack_int
pack_item i =
    pack_byte (letter_code i.answer)
    then_pack pack_byte i.r
    then_pack pack_byte i.g
    then_pack pack_byte i.b
    then_pack pack_byte i.brightness_percent
    then_pack pack_int i.on_ms
    then_pack pack_int i.off_ms

unfoldable pub pack_items : List ResolvedRgbItem → Option (List ℕ)
pack_items [] = some []
pack_items (i ∷ is) = pack_item i then_pack pack_items is

unfoldable pub pack_resolved : Option (List ResolvedRgbItem) → Option (List ℕ)
pack_resolved none = none
pack_resolved (some items) = pack_items items

unfoldable pub canonical_items_bytes : RgbSequencePayload → Option (List ℕ)
unfolding pack_resolved
canonical_items_bytes p = pack_resolved (resolved_items p)

module _ (sha256_hex : List ℕ → String) where
  unfoldable pub digest : Option (List ℕ) → Option String
  digest none = none
  digest (some bytes) = some (sha256_hex bytes)

  unfoldable pub payload_sha256 : RgbSequencePayload → Option String
  unfolding digest
  payload_sha256 p = digest (canonical_items_bytes p)

  unfoldable pub same_digest : Option String → String → Bool
  same_digest none expected = false
  same_digest (some actual) expected = str_eq actual expected

  -- `validate_payload_sha256`, `true` where it does not raise.
  unfoldable pub validate_payload_sha256 : RgbSequencePayload → Bool
  unfolding same_digest
  validate_payload_sha256 p = same_digest (payload_sha256 p) p.sha256

  unfoldable pub with_digest : RgbSequencePayload → Option String → Option RgbSequencePayload
  with_digest draft none = none
  with_digest draft (some sha) = some (record draft { sha256 = sha })

  -- The draft has 64 zeros for its digest. Its JSON text is made of the payload by the caller.
  unfoldable pub build_payload :
      String
      → String
      → ℕ
      → List AnswerLetter
      → RgbDefaults
      → Palette
      → List RgbOverride
      → Option RgbSequencePayload
  unfolding with_digest
  build_payload session_id sequence_id revision answers defaults palette overrides =
      let draft : RgbSequencePayload = record {
        schema_version = 1;
        session_id = session_id;
        sequence_id = sequence_id;
        revision = revision;
        item_count = length answers;
        sha256 = "0000000000000000000000000000000000000000000000000000000000000000";
        answers = answers;
        defaults = defaults;
        palette = palette;
        overrides = overrides;
      } in
      let built = with_digest draft (payload_sha256 draft) in
      if validate_payload draft then built else none
