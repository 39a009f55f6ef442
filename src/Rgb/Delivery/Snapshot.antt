-- ===== src/Rgb/Delivery/Snapshot.antt =====
-- rgb/delivery.py: `result_snapshot`, the answer to a poll of the firmware.
use pages_to_rgb.Prelude.{
  ℕ, String, Bool, true, false, ◌&&◌, Option, none, some, find?, leb, ◌==◌, if◌then◌else◌,
}
use pages_to_rgb.Rgb.Schemas.{RgbResultCommand, result_cancelled, RgbSequenceStatus}
use pages_to_rgb.Rgb.Delivery.Binding.{SessionBinding, derive_command}
use pages_to_rgb.Db.{Db, Delivery, Sequence}

pub record ResultSnapshot : Type 0 where
  pub command : RgbResultCommand
  pub cursor : ℕ
  pub session_id : String
  -- The id, the revision, the number of items and the digest of the sequence.
  pub sequence : Option (String × ℕ × ℕ × String)

-- `RgbSequenceStatus.INVALID` or `SUPERSEDED`
unfoldable pub is_withdrawn : RgbSequenceStatus → Bool
is_withdrawn RgbSequenceStatus.invalid = true
is_withdrawn RgbSequenceStatus.superseded = true
is_withdrawn _ = false

abbrev plain : SessionBinding → RgbResultCommand → ℕ → ResultSnapshot
plain binding command cursor = record {
  command = command;
  cursor = cursor;
  session_id = binding.session.public_id;
  sequence = none;
}

snapshot_of : SessionBinding → Delivery → Option Sequence → ResultSnapshot
unfolding is_withdrawn
snapshot_of binding d none = plain binding result_cancelled d.cursor
snapshot_of binding d (some q) =
    if is_withdrawn q.status
    then plain binding result_cancelled d.cursor
    else record (plain binding d.command d.cursor) {
      sequence = some (q.sequence_id, q.revision, q.item_count, q.payload_sha256);
    }

active_snapshot : SessionBinding → Delivery → Option ℕ → Db → ResultSnapshot
unfolding snapshot_of
active_snapshot binding d none db = plain binding d.command d.cursor
active_snapshot binding d (some n) db =
    snapshot_of binding d (find? (λ (q : Sequence). q.id == n) db.sequences)

snapshot_row : SessionBinding → Option Delivery → ℕ → Db → Option ResultSnapshot
unfolding active_snapshot
snapshot_row binding none cursor db =
    if leb 1 cursor then none else some (plain binding (derive_command binding.session) 0)
snapshot_row binding (some d) cursor db =
    if leb d.cursor cursor then none else some (active_snapshot binding d d.active_sequence_id db)

-- The delivery row that `result_snapshot` reads: the session's, if it has this device and gateway.
abbrev pub bound_delivery : SessionBinding → Delivery → Bool
bound_delivery b d =
    (d.session_id == b.session.id) && (d.device_id == b.device.id) && (d.gateway_id == b.gateway.id)

unfoldable pub result_snapshot : SessionBinding → ℕ → Db → Option ResultSnapshot
unfolding snapshot_row
result_snapshot binding cursor db =
    snapshot_row binding (find? (bound_delivery binding) db.deliveries) cursor db
