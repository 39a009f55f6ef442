-- ===== src/Rgb/Publish.antt =====
-- rgb/publisher.py: the colours of a session, and `publish_rgb_for_session` with all its branches.
use pages_to_rgb.Prelude.{
  ℕ, String, Bool, true, false, not, ◌&&◌, ◌||◌, Option, none, some, List, [], ◌∷◌, ◌++◌, map,
  find?, ltb, str_eq, if◌then◌else◌,
}
use pages_to_rgb.Common.Value.{Value, obj, Fields, end, field, get}
use pages_to_rgb.Common.Exec.{Exec, ok, err, app_error, value_error, ◌>>=◌}
use pages_to_rgb.Rgb.Schemas.{
  AnswerLetter, letter_a, letter_b, letter_c, letter_d, letter_e, Rgb, RgbDefaults, Palette,
  RgbSequencePayload, result_processing, rgb_sequence_ready, result_cancelled, same_command,
  validate_defaults,
}
use pages_to_rgb.Rgb.Policy.{Verdict, accepted, refused, key_error, validate_complete_answer_set}
use pages_to_rgb.Rgb.Canonical.{build_payload}
use pages_to_rgb.Rgb.Delivery.Binding.{SessionBinding}
use pages_to_rgb.Rgb.Delivery.Result.{
  get_or_create_delivery, mark_result_processing, is_cancelled_status, of_session,
}
use pages_to_rgb.Rgb.Publisher.{
  RgbSettings, RgbPublicationResult, default_palette, handwritten_palette, internal_binding,
  candidate, latest, next_revision, supersede, in_session, same_content, new_sequence,
  cancelled_result, ready_result, invalid_audit, published_audit,
}
use pages_to_rgb.Db.{Db, Session, Delivery, Sequence, Question, FinalAnswer, add_audit}

fields_or_empty : Option Fields → Fields
fields_or_empty none = end
fields_or_empty (some fs) = fs

is_handwritten : Session → Bool
is_handwritten s = str_eq s.session_type "HANDWRITTEN_WORD"

unfoldable pub fallback_palette : Session → Palette
unfolding is_handwritten
fallback_palette s = if is_handwritten s then handwritten_palette else default_palette

palette_key : Session → String
unfolding is_handwritten
palette_key s = if is_handwritten s then "handwritten_palette" else "palette"

palette_of : Rgb → Rgb → Rgb → Rgb → Rgb → Palette
palette_of a b c d e letter_a = a
palette_of a b c d e letter_b = b
palette_of a b c d e letter_c = c
palette_of a b c d e letter_d = d
palette_of a b c d e letter_e = e

five_colours : Option Rgb → Option Rgb → Option Rgb → Option Rgb → Option Rgb → Palette → Palette
unfolding palette_of
five_colours (some a) (some b) (some c) (some d) (some e) fallback = palette_of a b c d e
five_colours _ _ _ _ _ fallback = fallback

only_letters : Fields → Bool
only_letters end = true
only_letters (field k v r) =
    (str_eq k "A" || str_eq k "B" || str_eq k "C" || str_eq k "D" || str_eq k "E") && only_letters r

module _ (parse_colour : Value → Option Rgb) where
  colour_at : String → Fields → Option Rgb
  colour_at k fs = parse (get k fs)
    where
      parse : Option Value → Option Rgb
      parse none = none
      parse (some v) = parse_colour v

  raw_palette : Option Value → Palette → Palette
  unfolding five_colours colour_at only_letters
  raw_palette (some (obj fs)) fallback =
      if only_letters fs
      then five_colours (colour_at "A" fs) (colour_at "B" fs) (colour_at "C" fs) (colour_at "D" fs)
          (colour_at "E" fs) fallback
      else fallback
  raw_palette _ fallback = fallback

  -- `_snapshot_palette`
  unfoldable pub snapshot_palette : Session → Palette
  unfolding raw_palette fields_or_empty palette_key
  snapshot_palette s =
      raw_palette (get (palette_key s) (fields_or_empty s.config_snapshot)) (fallback_palette s)

-- `_defaults`; `int_of` is `none` where `int` raises or the number is negative.
module _ (int_of : Value → Option ℕ) where
  int_at : String → ℕ → Fields → Option ℕ
  int_at k d fs = convert (get k fs)
    where
      convert : Option Value → Option ℕ
      convert none = some d
      convert (some v) = int_of v

  checked_defaults : Option ℕ → Option ℕ → Option ℕ → Option RgbDefaults
  checked_defaults (some b) (some on) (some off) =
      let d : RgbDefaults = record { brightness_percent = b; on_ms = on; off_ms = off } in
      if validate_defaults d then some d else none
  checked_defaults _ _ _ = none

  unfoldable pub snapshot_defaults : RgbDefaults → Option Fields → Option RgbDefaults
  unfolding int_at checked_defaults fields_or_empty
  snapshot_defaults base snapshot =
      let fs = fields_or_empty snapshot in
      checked_defaults (int_at "brightness_percent" base.brightness_percent fs)
        (int_at "on_ms" base.on_ms fs) (int_at "off_ms" base.off_ms fs)

abbrev pub is_ready : Option Delivery → Bool
is_ready none = false
is_ready (some d) = same_command d.command rgb_sequence_ready

module _ (uuid_text : ℕ → String) (sha256_hex : List ℕ → String)
    (json_size : RgbSequencePayload → ℕ) (settings : RgbSettings) (binding : SessionBinding)
    (now : ℕ) where
  unfoldable pub cancel_result : String → Exec Db RgbPublicationResult
  cancel_result reason =
      get_or_create_delivery uuid_text binding result_cancelled none (some reason) now >>= λ _ s.
      (ok (cancelled_result reason), s)

  unfoldable pub refuse_answers : String → Exec Db RgbPublicationResult
  refuse_answers reason =
      get_or_create_delivery uuid_text binding result_cancelled none (some reason) now >>= λ _ s.
      (ok (cancelled_result reason), add_audit (invalid_audit binding reason) s)

  unfoldable pub make_ready : Sequence → Bool → Exec Db RgbPublicationResult
  make_ready q reused =
      get_or_create_delivery uuid_text binding rgb_sequence_ready (some q.id) none now >>= λ _ s.
      (ok (ready_result q reused), s)

  unfoldable pub insert_sequence : ℕ → Option RgbSequencePayload → Exec Db RgbPublicationResult
  insert_sequence id none db = (err value_error, db)
  insert_sequence id (some p) db =
      let q = new_sequence id binding.session.id now p in
      let rows = supersede (latest (in_session binding.session.id) db.sequences) db.sequences in
      let ready =
        make_ready q false
          (add_audit (published_audit binding q) (record db { sequences = rows ++ q ∷ [] })) in
      if ltb settings.rgb_sequence_max_json_bytes (json_size p)
      then (err (app_error "RGB_SEQUENCE_INVALID" 409), db)
      else ready

  module _ (new_id : ℕ) (new_public_id : String) where
    unfoldable pub reuse_or_insert :
        Option Sequence → List AnswerLetter → RgbDefaults → Palette → Exec Db RgbPublicationResult
    reuse_or_insert (some q) answers defaults palette db = make_ready q true db
    reuse_or_insert none answers defaults palette db =
        insert_sequence new_id
          (build_payload sha256_hex binding.session.public_id new_public_id
            (next_revision (latest (in_session binding.session.id) db.sequences)) answers defaults
            palette [])
          db

    unfoldable pub with_probe :
        Option RgbSequencePayload
        → List AnswerLetter
        → RgbDefaults
        → Palette
        → Exec Db RgbPublicationResult
    with_probe none answers defaults palette db = (err value_error, db)
    with_probe (some probe) answers defaults palette db =
        reuse_or_insert (latest (same_content binding.session.id probe.sha256) db.sequences) answers
          defaults palette db

    unfoldable pub with_defaults :
        Option RgbDefaults → Palette → List AnswerLetter → Exec Db RgbPublicationResult
    with_defaults none palette answers db = (err value_error, db)
    with_defaults (some defaults) palette answers db =
        with_probe
          (build_payload sha256_hex binding.session.public_id "rgb-probe" 1 answers defaults palette
            [])
          answers defaults palette db

    unfoldable pub by_verdict :
        Verdict → Option RgbDefaults → Palette → Exec Db RgbPublicationResult
    by_verdict (refused reason) defaults palette = refuse_answers reason
    by_verdict key_error defaults palette = λ db. (err value_error, db)
    by_verdict (accepted answers) defaults palette = with_defaults defaults palette answers

    unfoldable pub begin_processing : Option Delivery → Exec Db (Unit {0})
    begin_processing current db =
        let begun =
          (get_or_create_delivery uuid_text binding result_processing none none now >>= λ _ s.
          (ok tt, s))
            db in
        if is_ready current then (ok tt, db) else begun

    module _ (int_of : Value → Option ℕ) (parse_colour : Value → Option Rgb)
        (rows : List (Question × Option FinalAnswer)) where
      unfoldable pub publish_answers : Exec Db RgbPublicationResult
      publish_answers db =
          (begin_processing (find? (of_session binding.session.id) db.deliveries) >>= λ _.
          by_verdict
            (validate_complete_answer_set binding.session.expected_questions (map candidate rows)
              settings.rgb_sequence_max_items)
            (snapshot_defaults int_of settings.rgb_defaults binding.session.config_snapshot)
            (snapshot_palette parse_colour binding.session))
            db

      -- `publish_rgb_for_session`, below the binding.
      unfoldable pub publish_rgb : Exec Db RgbPublicationResult
      publish_rgb db =
          let cancelled = cancel_result "SESSION_CANCELLED" db in
          let disabled = cancel_result "RGB_RESULTS_DISABLED" db in
          let published = publish_answers db in
          if is_cancelled_status binding.session.status
          then cancelled
          else if not settings.rgb_results_enabled
          then disabled
          else published

unfoldable pub publish_rgb_for_session :
    (ℕ → String)
    → (List ℕ → String)
    → (RgbSequencePayload → ℕ)
    → (Value → Option ℕ)
    → (Value → Option Rgb)
    → RgbSettings
    → String
    → List (Question × Option FinalAnswer)
    → ℕ
    → String
    → ℕ
    → Exec Db RgbPublicationResult
publish_rgb_for_session uuid_text sha256_hex json_size int_of parse_colour settings public_id rows
      new_id new_public_id now =
    internal_binding public_id >>= λ b.
    publish_rgb uuid_text sha256_hex json_size settings b now new_id new_public_id int_of
      parse_colour rows

unfoldable pub mark_processing_for_session : (ℕ → String) → String → ℕ → Exec Db Delivery
mark_processing_for_session uuid_text public_id now =
    internal_binding public_id >>= λ b. mark_result_processing uuid_text b now
