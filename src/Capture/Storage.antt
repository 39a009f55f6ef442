-- ===== src/Capture/Storage.antt =====
-- storage/fake_storage.py, whose comment calls its semantics that of the real storage, and the
-- exceptions of common/errors.py that it raises: `StorageOverwriteForbidden` is no subclass of
-- `StorageError`. An outage is the reason code that a call raises with. Both the check and the write
-- are one step, as they are for one object at a time.
pub mod Kept
use pages_to_rgb.Prelude.{
  ℕ, String, Bool, true, false, ◌&&◌, Option, none, some, List, [], ◌∷◌, ◌++◌, find?, update,
  str_eq, if◌then◌else◌,
}
use pages_to_rgb.Common.Exec.{Error, app_error, Result, ok, err}
use pages_to_rgb.Db.{Bucket, pages_originals, pages_derived}

pub record StoredObject : Type 0 where
  pub bucket : Bucket
  pub key : String
  pub bytes : List ℕ

abbrev same_bucket : Bucket → Bucket → Bool
same_bucket pages_originals pages_originals = true
same_bucket pages_derived pages_derived = true
same_bucket _ _ = false

abbrev pub at_key : Bucket → String → StoredObject → Bool
at_key bucket key o = same_bucket o.bucket bucket && str_eq o.key key

pub data StorageFailure : Type 0 where
  storage_error : String → StorageFailure
  overwrite_forbidden : StorageFailure

-- `isinstance(exc, StorageError)`
unfoldable pub is_storage_error : StorageFailure → Bool
is_storage_error (storage_error code) = true
is_storage_error overwrite_forbidden = false

unfoldable pub error_of : StorageFailure → Error
error_of (storage_error code) = app_error code 500
error_of overwrite_forbidden = app_error "STORAGE_OVERWRITE_FORBIDDEN" 409

-- `_IMMUTABLE_BUCKETS`
abbrev pub is_immutable : Bucket → Bool
is_immutable pages_originals = true
is_immutable pages_derived = false

pub data Put : Type 0 where
  stored : List StoredObject → Put
  refused : StorageFailure → Put

unfoldable pub put_at : Option StoredObject → Bucket → String → List ℕ → List StoredObject → Put
put_at none bucket key bytes objects =
    stored (objects ++ record { bucket = bucket; key = key; bytes = bytes } ∷ [])
put_at (some o) bucket key bytes objects =
    if is_immutable bucket
    then refused overwrite_forbidden
    else stored (
        update (at_key bucket key) (λ _. record { bucket = bucket; key = key; bytes = bytes })
          objects)

-- `put_object(…, overwrite=False)`
unfoldable pub put_object : Option String → Bucket → String → List ℕ → List StoredObject → Put
unfolding put_at
put_object (some code) bucket key bytes objects = refused (storage_error code)
put_object none bucket key bytes objects =
    put_at (find? (at_key bucket key) objects) bucket key bytes objects

write_at : Option StoredObject → StoredObject → List StoredObject → Put
write_at none new objects = stored (objects ++ new ∷ [])
write_at (some o) new objects = stored (update (at_key new.bucket new.key) (λ _. new) objects)

-- `put_object(…, overwrite=True)`
unfoldable pub overwrite_object : Option String → Bucket → String → List ℕ → List StoredObject → Put
unfolding write_at
overwrite_object (some code) bucket key bytes objects = refused (storage_error code)
overwrite_object none bucket key bytes objects =
    write_at (find? (at_key bucket key) objects)
      (record { bucket = bucket; key = key; bytes = bytes }) objects

got : Option StoredObject → Result (List ℕ)
got none = err (app_error "STORAGE_OBJECT_NOT_FOUND" 500)
got (some o) = ok o.bytes

unfoldable pub get_object : Option String → Bucket → String → List StoredObject → Result (List ℕ)
unfolding got
get_object (some code) bucket key objects = err (app_error code 500)
get_object none bucket key objects = got (find? (at_key bucket key) objects)
