-- ===== src/Rgb/Published.antt =====
-- What a publication of rgb/publisher.py leaves for the next poll of the firmware.
use pages_to_rgb.Prelude.{
  ℕ, String, ◌≡◌, refl, Bool, true, false, not, Option, none, some, List, [], ◌∷◌, find?, ltb,
  if_rule, ◌⊎◌, Bool-cases, inl, inr, find?-append_none, ==_refl, ap, ◌∙◌,
}
use pages_to_rgb.Common.Value.{Value}
use pages_to_rgb.Common.Exec.{Result, ok, err, continue}
use pages_to_rgb.Rgb.Schemas.{
  AnswerLetter, Rgb, RgbDefaults, Palette, RgbSequencePayload, RgbResultCommand, result_cancelled,
  result_processing, rgb_sequence_ready,
}
use pages_to_rgb.Rgb.Policy.{Verdict, accepted, refused, key_error}
use pages_to_rgb.Rgb.Delivery.Binding.{SessionBinding}
use pages_to_rgb.Rgb.Delivery.Snapshot.{bound_delivery}
use pages_to_rgb.Rgb.Delivery.Result.{
  get_or_create_delivery, of_session, changed, write_delivery, create_delivery, is_cancelled_status,
}
use pages_to_rgb.Rgb.Delivery.Cursor.{
  visible_command, command_of, asked_is_visible, delivery_advances,
}
use pages_to_rgb.Rgb.Publisher.{RgbSettings, RgbPublicationResult}
use pages_to_rgb.Rgb.Publish.{
  cancel_result, refuse_answers, make_ready, insert_sequence, reuse_or_insert, with_probe,
  with_defaults, by_verdict, begin_processing, publish_answers, publish_rgb, is_ready,
}
use pages_to_rgb.Db.{Db, Delivery, Sequence, Question, FinalAnswer, add_audit}

-- The session has no delivery row yet, or one that belongs to its device and gateway.
abbrev pub Deliverable : SessionBinding → Db → Type 0
Deliverable binding db =
    (find? (of_session binding.session.id) db.deliveries ≡ none)
    ⊎ (d : Delivery) × (find? (of_session binding.session.id) db.deliveries ≡ some d)
      × (bound_delivery binding d ≡ true)

-- What a request for a command leaves.
abbrev Asked : SessionBinding → RgbResultCommand → Db → Type 0
Asked binding command db = (visible_command binding db ≡ some command) × Deliverable binding db

module _ (uuid_text : ℕ → String) (binding : SessionBinding) (command : RgbResultCommand)
    (active : Option ℕ) (reason : Option String) (now : ℕ) (db : Db) where
  creates :
      find? (of_session binding.session.id) db.deliveries ≡ none
      → (d : Delivery) × (find?
            (of_session binding.session.id)
            (get_or_create_delivery uuid_text binding command active reason now db).1.deliveries
          ≡ some d)
        × (d.command ≡ command)
        × (bound_delivery binding d ≡ true)
  unfolding get_or_create_delivery write_delivery create_delivery
  creates absent =
      let d : Delivery = record {
        session_id = binding.session.id;
        device_id = binding.device.id;
        gateway_id = binding.gateway.id;
        command = command;
        cursor = 1;
        active_sequence_id = active;
        reason_code = reason;
        updated_at = now;
      } in
      rw absent (
        d,
        rw (find?-append_none (of_session binding.session.id) db.deliveries (d ∷ []) absent)
            (rw (==_refl binding.session.id) refl),
        refl,
        rw (==_refl binding.session.id)
            (rw (==_refl binding.device.id) (rw (==_refl binding.gateway.id) refl)),
      )

  asks :
      Deliverable binding db
      → Asked binding command
          (get_or_create_delivery uuid_text binding command active reason now db).1
  asks (inl absent) =
      let (d, found, same, bound) = creates absent in
      (ap command_of found ∙ ap some same, inr (d, found, bound))
  asks (inr (d, found, bound)) =
      let laws = delivery_advances uuid_text binding command active reason now db found in
      (
        asked_is_visible uuid_text binding db found bound command active reason now,
        inr (elim (Bool-cases (changed d command active reason)) [
          | inl c ↦ (_, (laws.2 bound c).2, bound)
          | inr c ↦ rw (laws.1 bound c) (d, found, bound)
        ]),
      )

-- The answer of a publication is what a poll then finds.
abbrev Shown : SessionBinding → Result RgbPublicationResult × Db → Type 0
Shown binding r =
    (answer : RgbPublicationResult)
    → r.0 ≡ ok answer
    → visible_command binding r.1 ≡ some answer.command

answered :
    (binding : SessionBinding) (command : RgbResultCommand) (result : RgbPublicationResult)
    (f : Db → Db) (r : Result Delivery × Db)
    → result.command ≡ command
    → ((s : Db) → (f s).deliveries ≡ s.deliveries)
    → visible_command binding r.1 ≡ some command
    → Shown binding (continue r.0 (λ _ s. (ok result, f s)) r.1)
answered binding command result f (ok d, db) same keeps v answer k =
    ap (λ ds. command_of (find? (of_session binding.session.id) ds)) (keeps db)
    ∙ v
    ∙ ap some (cc (same, k))
answered binding command result f (err x, db) same keeps v answer k = cc k

module _ (uuid_text : ℕ → String) (sha256_hex : List ℕ → String)
    (json_size : RgbSequencePayload → ℕ) (settings : RgbSettings) (binding : SessionBinding)
    (now : ℕ) where
  cancel-Shown :
      (reason : String) (db : Db)
      → Deliverable binding db
      → Shown binding (cancel_result uuid_text sha256_hex json_size settings binding now reason db)
  unfolding cancel_result
  cancel-Shown reason db h =
      answered binding result_cancelled _ (λ s. s)
        (get_or_create_delivery uuid_text binding result_cancelled none (some reason) now db) refl
        (λ s. refl) (asks uuid_text binding result_cancelled none (some reason) now db h).0

  refuse-Shown :
      (reason : String) (db : Db)
      → Deliverable binding db
      → Shown binding (refuse_answers uuid_text sha256_hex json_size settings binding now reason db)
  unfolding refuse_answers
  refuse-Shown reason db h =
      answered binding result_cancelled _ (λ s. add_audit _ s)
        (get_or_create_delivery uuid_text binding result_cancelled none (some reason) now db) refl
        (λ s. refl) (asks uuid_text binding result_cancelled none (some reason) now db h).0

  ready-Shown :
      (q : Sequence) (reused : Bool) (db : Db)
      → Deliverable binding db
      → Shown binding (make_ready uuid_text sha256_hex json_size settings binding now q reused db)
  unfolding make_ready
  ready-Shown q reused db h =
      answered binding rgb_sequence_ready _ (λ s. s)
        (get_or_create_delivery uuid_text binding rgb_sequence_ready (some q.id) none now db) refl
        (λ s. refl) (asks uuid_text binding rgb_sequence_ready (some q.id) none now db h).0

  insert-Shown :
      (id : ℕ) (o : Option RgbSequencePayload) (db : Db)
      → Deliverable binding db
      → Shown binding (insert_sequence uuid_text sha256_hex json_size settings binding now id o db)
  unfolding insert_sequence
  insert-Shown id none db h = λ answer k. cc k
  insert-Shown id (some p) db h =
      if_rule (Shown binding) (ltb settings.rgb_sequence_max_json_bytes (json_size p)) _ _
        (λ _ answer k. cc k) (λ _. ready-Shown _ false _ h)

  module _ (new_id : ℕ) (new_public_id : String) where
    reuse-Shown :
        (o : Option Sequence) (answers : List AnswerLetter) (d : RgbDefaults) (c : Palette)
        (db : Db)
        → Deliverable binding db
        → Shown binding (
            reuse_or_insert uuid_text sha256_hex json_size settings binding now new_id new_public_id
              o answers d c db)
    unfolding reuse_or_insert
    reuse-Shown (some q) answers d c db h = ready-Shown q true db h
    reuse-Shown none answers d c db h = insert-Shown new_id _ db h

    probe-Shown :
        (o : Option RgbSequencePayload) (answers : List AnswerLetter) (d : RgbDefaults)
        (c : Palette) (db : Db)
        → Deliverable binding db
        → Shown binding (
            with_probe uuid_text sha256_hex json_size settings binding now new_id new_public_id o
              answers d c db)
    unfolding with_probe
    probe-Shown none answers d c db h = λ answer k. cc k
    probe-Shown (some p) answers d c db h = reuse-Shown _ answers d c db h

    verdict-Shown :
        (v : Verdict) (o : Option RgbDefaults) (c : Palette) (db : Db)
        → Deliverable binding db
        → Shown binding (
            by_verdict uuid_text sha256_hex json_size settings binding now new_id new_public_id v o
              c db)
    unfolding by_verdict with_defaults
    verdict-Shown (refused reason) o c db h = refuse-Shown reason db h
    verdict-Shown key_error o c db h = λ answer k. cc k
    verdict-Shown (accepted answers) none c db h = λ answer k. cc k
    verdict-Shown (accepted answers) (some d) c db h = probe-Shown _ answers d c db h

    left-Deliverable :
        (r : Result Delivery × Db)
        → Deliverable binding r.1
        → Deliverable binding (continue {S = Db} {B = Unit {0}} r.0 (λ _ s. (ok tt, s)) r.1).1
    left-Deliverable (ok d, db) h = h
    left-Deliverable (err x, db) h = h

    begin-Deliverable :
        (o : Option Delivery) (db : Db)
        → Deliverable binding db
        → Deliverable binding
            (begin_processing uuid_text sha256_hex json_size settings binding now new_id
              new_public_id o db).1
    unfolding begin_processing
    begin-Deliverable o db h =
        if_rule (λ (r : Result (Unit {0}) × Db). Deliverable binding r.1) (is_ready o) (ok tt, db) _
          (λ _. h)
          (λ _.
            left-Deliverable
              (get_or_create_delivery uuid_text binding result_processing none none now db)
              (asks uuid_text binding result_processing none none now db h).1)

    continue-Shown :
        (r : Result (Unit {0}) × Db) (f : Db → Result RgbPublicationResult × Db)
        → Shown binding (f r.1)
        → Shown binding (continue r.0 (λ _. f) r.1)
    continue-Shown (ok u, db) f h = h
    continue-Shown (err x, db) f h = λ answer k. cc k

    module _ (int_of : Value → Option ℕ) (parse_colour : Value → Option Rgb)
        (rows : List (Question × Option FinalAnswer)) where
      answers-Shown :
          (db : Db)
          → Deliverable binding db
          → Shown binding (
              publish_answers uuid_text sha256_hex json_size settings binding now new_id
                new_public_id int_of parse_colour rows db)
      unfolding publish_answers
      answers-Shown db h =
          continue-Shown
            (begin_processing uuid_text sha256_hex json_size settings binding now new_id
              new_public_id _ db)
            _ (verdict-Shown _ _ _ _ (begin-Deliverable _ db h))

      publish-Shown :
          (db : Db)
          → Deliverable binding db
          → Shown binding (
              publish_rgb uuid_text sha256_hex json_size settings binding now new_id new_public_id
                int_of parse_colour rows db)
      unfolding publish_rgb
      publish-Shown db h =
          if_rule (Shown binding) (is_cancelled_status binding.session.status) _ _
            (λ _. cancel-Shown "SESSION_CANCELLED" db h)
            (λ _.
              if_rule (Shown binding) (not settings.rgb_results_enabled) _ _
                (λ _. cancel-Shown "RGB_RESULTS_DISABLED" db h) (λ _. answers-Shown db h))

      -- Whenever a publication succeeds, the command that it returns is the one that the delivery row
      -- of the session then shows. It needs that the row of the session, if there is one, belongs to
      -- the session's device and gateway.
      pub published_is_shown :
          (db : Db) {answer : RgbPublicationResult}
          → Deliverable binding db
          → (publish_rgb uuid_text sha256_hex json_size settings binding now new_id new_public_id
              int_of parse_colour rows db).0
            ≡ ok answer
          → visible_command binding
              (publish_rgb uuid_text sha256_hex json_size settings binding now new_id new_public_id
                int_of parse_colour rows db).1
            ≡ some answer.command
      published_is_shown db {answer} h k = publish-Shown db h answer k
