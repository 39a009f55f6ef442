-- ===== src/Rgb/Delivery/Sequences.antt =====
-- rgb/delivery.py: `sequence_payload` and `get_sequence_for_binding`, what the firmware downloads.
-- The digest and the size of the JSON text are parameters.
use pages_to_rgb.Prelude.{
  ℕ, String, ◌≡◌, ◌≤◌, Bool, true, false, not, ◌&&◌, Option, none, some, List, find?, ltb, ◌==◌,
  str_eq, arith, if◌then◌else◌, Bool-cases, Option-cases, inl, inr, subst, sym,
}
use pages_to_rgb.Common.Exec.{Exec, Result, ok, err, app_error, value_error}
use pages_to_rgb.Rgb.Schemas.{RgbSequencePayload, validate_payload}
use pages_to_rgb.Rgb.Canonical.{validate_payload_sha256}
use pages_to_rgb.Rgb.Delivery.Binding.{SessionBinding}
use pages_to_rgb.Rgb.Delivery.Snapshot.{is_withdrawn}
use pages_to_rgb.Db.{Db, Sequence}

unfoldable pub payload_of : Sequence → String → RgbSequencePayload
payload_of q session_public_id = record {
  schema_version = q.schema_version;
  session_id = session_public_id;
  sequence_id = q.sequence_id;
  revision = q.revision;
  item_count = q.item_count;
  sha256 = q.payload_sha256;
  answers = q.answers;
  defaults = q.defaults;
  palette = q.palette;
  overrides = q.overrides;
}

abbrev pub stored : SessionBinding → String → Sequence → Bool
stored binding sequence_id q =
    (q.session_id == binding.session.id) && str_eq q.sequence_id sequence_id

module _ (sha256_hex : List ℕ → String) (json_size : RgbSequencePayload → ℕ)
    (max_json_bytes : ℕ) where
  check_payload : RgbSequencePayload → Result RgbSequencePayload
  check_payload p =
      if not (validate_payload p)
      then err value_error
      else if not (validate_payload_sha256 sha256_hex p)
      then err value_error
      else if ltb max_json_bytes (json_size p)
      then err (app_error "RGB_SEQUENCE_INVALID" 409)
      else ok p

  unfoldable pub sequence_payload : Sequence → String → Result RgbSequencePayload
  unfolding check_payload
  sequence_payload q session_public_id = check_payload (payload_of q session_public_id)

  deliver : SessionBinding → Option Sequence → Result RgbSequencePayload
  deliver binding none = err (app_error "RGB_SEQUENCE_NOT_FOUND" 404)
  deliver binding (some q) =
      if is_withdrawn q.status
      then err (app_error "RGB_SEQUENCE_NOT_FOUND" 410)
      else sequence_payload q binding.session.public_id

  unfoldable pub get_sequence_for_binding : SessionBinding → String → Exec Db RgbSequencePayload
  unfolding deliver
  get_sequence_for_binding binding sequence_id db =
      (deliver binding (find? (stored binding sequence_id) db.sequences), db)

  -- What a payload that was checked has.
  abbrev pub Checked : RgbSequencePayload → Type 0
  Checked p =
      (validate_payload p ≡ true)
      × (validate_payload_sha256 sha256_hex p ≡ true)
      × (json_size p ≤ max_json_bytes)

  check_payload-Checked :
      (p : RgbSequencePayload) {answer : RgbSequencePayload}
      → check_payload p ≡ ok answer
      → (answer ≡ p) × Checked p
  unfolding check_payload
  check_payload-Checked p h = elim (Bool-cases (validate_payload p)) [
    | inl v ↦ elim (Bool-cases (validate_payload_sha256 sha256_hex p)) [
      | inl s ↦ elim (Bool-cases (ltb max_json_bytes (json_size p))) [
        | inl l ↦ cc (rw l at (rw s at (rw v at h)))
        | inr l ↦ (cc (rw l at (rw s at (rw v at h))), (v, s, ground arith))
      ]
      | inr s ↦ cc (rw s at (rw v at h))
    ]
    | inr v ↦ cc (rw v at h)
  ]

  -- A download succeeds only with a sequence of the session that has not been withdrawn, whose
  -- payload is valid, has the digest that is stored with it, and fits the firmware's limit.
  pub downloaded-Checked :
      (binding : SessionBinding) (sequence_id : String) (db : Db) {answer : RgbSequencePayload}
      → (get_sequence_for_binding binding sequence_id db).0 ≡ ok answer
      → (q : Sequence) × (find? (stored binding sequence_id) db.sequences ≡ some q)
        × (is_withdrawn q.status ≡ false)
        × (answer ≡ payload_of q binding.session.public_id)
        × Checked answer
  unfolding get_sequence_for_binding deliver sequence_payload
  downloaded-Checked binding sequence_id db {answer} h =
      elim (Option-cases (find? (stored binding sequence_id) db.sequences)) [
        | inl e ↦ cc (rw e at h)
        | inr (q, e) ↦ elim (Bool-cases (is_withdrawn q.status)) [
          | inl w ↦ cc (rw w at (rw e at h))
          | inr w ↦
              (let c =
                  check_payload-Checked (payload_of q binding.session.public_id)
                    (rw w at (rw e at h)) in
                (q, e, w, c.0, subst Checked (sym c.0) c.1))
        ]
      ]
