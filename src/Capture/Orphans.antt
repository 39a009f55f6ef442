-- ===== src/Capture/Orphans.antt =====
-- capture/orphans.py: the job that reconciles the objects which an upload stored and whose rows were
-- rolled back. Python's `str.split` and the number before the extension are parameters, and so are
-- the calls of the storage that fail; the table of orphans is in the order of its creation.
pub mod Reconciled
use pages_to_rgb.Prelude.{
  ℕ, String, Bool, true, false, not, ◌&&◌, Option, none, some, List, [], ◌∷◌, ◌++◌, find?, select,
  update, take, length, ◌==◌, ◌+◌, str_eq, if◌then◌else◌,
}
use pages_to_rgb.Common.Exec.{Result, ok, err}
use pages_to_rgb.Capture.Storage.{StoredObject, at_key, get_object}
use pages_to_rgb.Capture.Upload.Request.{Library}
use pages_to_rgb.Capture.Upload.Rows.{capture_key, frame_slot}
use pages_to_rgb.Capture.Upload.Flow.{World, by_public_id, with_frame}
use pages_to_rgb.Db.{Db, Session, Capture, Frame, StorageOrphan}

-- What the job is given: the clock, the ids of new rows, and the storage calls that fail, by orphan.
pub record Job : Type 0 where
  pub now : ℕ
  pub frame_id : ℕ → ℕ
  pub head_fails : ℕ → Bool
  pub get_outage : ℕ → Option String
  pub split : String → List String
  pub file_index : String → Option ℕ

pub data Outcome : Type 0 where
  linked recreated discarded kept : Outcome

pub record Stats : Type 0 where
  pub linked : ℕ
  pub recreated : ℕ
  pub discarded : ℕ
  pub kept : ℕ

counted_as : Outcome → Stats → Stats
counted_as linked st = record st { linked = st.linked + 1 }
counted_as recreated st = record st { recreated = st.recreated + 1 }
counted_as discarded st = record st { discarded = st.discarded + 1 }
counted_as kept st = record st { kept = st.kept + 1 }

with_index : Option ℕ → String → String → Option (String × String × ℕ)
with_index none sid capture_id = none
with_index (some n) sid capture_id = some (sid, capture_id, n)

parts_of : Job → List String → Option (String × String × ℕ)
unfolding with_index
parts_of job (root ∷ sid ∷ kind ∷ capture_id ∷ file ∷ []) =
    if str_eq root "sessions" && str_eq kind "frames"
    then with_index (job.file_index file) sid capture_id
    else none
parts_of job _ = none

unfoldable pub parse_frame_key : Job → String → Option (String × String × ℕ)
unfolding parts_of
parse_frame_key job key = parts_of job (job.split key)

resolve : ℕ → String → StorageOrphan → World → World
resolve now resolution o w = record w {
  db = record w.db {
    orphans =
        update (λ (k : StorageOrphan). k.id == o.id)
          (λ k. record k { resolved_at = some now; resolution = some resolution }) w.db.orphans;
  };
}

module _ (lib : Library) (job : Job) (o : StorageOrphan) where
  recreated_frame : Session → Capture → ℕ → List ℕ → Frame
  recreated_frame s row frame_index raw = record {
    id = job.frame_id o.id;
    session_id = s.id;
    capture_id = row.id;
    frame_index = frame_index;
    sha256 = lib.lower o.sha256;
    content_length = length raw;
    mime_type = "image/jpeg";
    width = none;
    height = none;
    storage_key = o.key;
    received_android_at = none;
    capture_source = "ANDROID_CAMERA";
    android_orientation = none;
    source_resolution = none;
    page_number = none;
    frame_number = none;
    requested_resolution = none;
    effective_resolution = none;
    requested_esp_jpeg_quality = none;
    effective_esp_jpeg_quality = none;
    configured_buffer_bytes = none;
    dma_enabled = none;
    firmware_version = none;
    jpeg_size_bytes = none;
    jpeg_valid = none;
    storage_key_original = none;
    upload_duration_ms = none;
    confirmed_at = none;
    status = "accepted";
  }

  recreate : Session → Capture → ℕ → Result (List ℕ) → World → Outcome × World
  unfolding recreated_frame resolve
  recreate s row frame_index (err e) w = (kept, w)
  recreate s row frame_index (ok raw) w =
      if str_eq (lib.lower (lib.sha256 raw)) (lib.lower o.sha256)
      then (
        recreated,
        resolve job.now "recreated" o
            (record w { db = with_frame lib (recreated_frame s row frame_index raw) row w.db }),
      )
      else (kept, resolve job.now "hash_mismatch_kept" o w)

  by_frame : Session → Capture → ℕ → Option Frame → World → Outcome × World
  unfolding recreate resolve
  by_frame s row frame_index (some f) w =
      if str_eq (lib.lower f.sha256) (lib.lower o.sha256)
      then (linked, resolve job.now "already_linked" o w)
      else (kept, resolve job.now "conflict_kept" o w)
  by_frame s row frame_index none w =
      recreate s row frame_index (get_object (job.get_outage o.id) o.bucket o.key w.objects) w

  by_capture : Session → ℕ → Option Capture → World → Outcome × World
  unfolding by_frame
  by_capture s frame_index none w = (kept, w)
  by_capture s frame_index (some row) w =
      by_frame s row frame_index (find? (frame_slot row.id frame_index) w.db.frames) w

  by_session : String → ℕ → Option Session → World → Outcome × World
  unfolding by_capture
  by_session capture_id frame_index none w = (kept, w)
  by_session capture_id frame_index (some s) w =
      by_capture s frame_index (find? (capture_key s.id capture_id) w.db.captures) w

  by_key : Option (String × String × ℕ) → World → Outcome × World
  unfolding by_session resolve
  by_key none w = (kept, resolve job.now "unparseable_key" o w)
  by_key (some (sid, capture_id, frame_index)) w =
      by_session capture_id frame_index (find? (by_public_id sid) w.db.sessions) w

  by_object : Option StoredObject → World → Outcome × World
  unfolding by_key resolve
  by_object none w = (discarded, resolve job.now "discarded" o w)
  by_object (some object) w = by_key (parse_frame_key job o.key) w

  unfoldable pub reconcile_one : World → Outcome × World
  unfolding by_object
  reconcile_one w =
      if job.head_fails o.id
      then (kept, w)
      else by_object (find? (at_key o.bucket o.key) w.objects) w

unfoldable pub reconcile_all : Library → Job → List StorageOrphan → Stats → World → Stats × World
unfolding counted_as
reconcile_all lib job [] stats w = (stats, w)
reconcile_all lib job (o ∷ rest) stats w =
    let (outcome, w') = reconcile_one lib job o w in
    reconcile_all lib job rest (counted_as outcome stats) w'

abbrev pub unresolved : StorageOrphan → Bool
unresolved o = elim o.resolved_at [ none ↦ true | some t ↦ false ]

abbrev no_stats : Stats
no_stats = record { linked = 0; recreated = 0; discarded = 0; kept = 0 }

-- The job commits at its end.
unfoldable pub reconcile : Library → Job → ℕ → World → Stats × World
reconcile lib job limit w =
    reconcile_all lib job (take limit (select unresolved w.db.orphans)) no_stats w
