-- ===== src/Idempotency.antt =====
-- common/idempotency.py: the responses stored under the key of a request. A time is in microseconds,
-- and a table of responses is the state; the digest of a request is a text.
pub mod Replay
use pages_to_rgb.Prelude.{
  ℕ, String, Bool, true, false, not, ◌&&◌, Option, none, some, List, [], ◌∷◌, ◌++◌, find?, select,
  count, ltb, ◌+◌, ◌*◌, str_eq, if◌then◌else◌,
}
use pages_to_rgb.Common.Exec.{Exec, Result, ok, err, app_error, Done, done}

pub record IdempotencyKey : Type 0 where
  pub key : String
  pub scope : String
  pub request_hash : String
  pub response_status : ℕ
  pub response_body : String
  pub expires_at : ℕ

abbrev pub keyed : String → String → IdempotencyKey → Bool
keyed key scope row = str_eq row.key key && str_eq row.scope scope

-- `expires_at < now`
abbrev pub is_expired : ℕ → IdempotencyKey → Bool
is_expired now row = ltb row.expires_at now

-- The rows that are not deleted.
abbrev pub without : (IdempotencyKey → Bool) → List IdempotencyKey → List IdempotencyKey
without p rows = select (λ row. not (p row)) rows

check_row :
    String
    → String
    → String
    → ℕ
    → Option IdempotencyKey
    → Exec (List IdempotencyKey) (Option IdempotencyKey)
check_row key scope request_hash now none rows = (ok none, rows)
check_row key scope request_hash now (some row) rows =
    if is_expired now row
    then (ok none, without (keyed key scope) rows)
    else if not (str_eq row.request_hash request_hash)
    then (err (app_error "IDEMPOTENCY_KEY_REUSED_WITH_DIFFERENT_PAYLOAD" 409), rows)
    else (ok (some row), rows)

-- `key` and `scope` are unique, so the row that is found is the row that is deleted.
unfoldable pub check_and_store :
    String → String → String → ℕ → Exec (List IdempotencyKey) (Option IdempotencyKey)
unfolding check_row
check_and_store key scope request_hash now rows =
    check_row key scope request_hash now (find? (keyed key scope) rows) rows

unfoldable pub stored_response : ℕ → String → String → String → ℕ → String → ℕ → IdempotencyKey
stored_response ttl_hours key scope request_hash status body now = record {
  key = key;
  scope = scope;
  request_hash = request_hash;
  response_status = status;
  response_body = body;
  expires_at = now + ttl_hours * 3600000000;
}

record_row :
    List IdempotencyKey → IdempotencyKey → Option IdempotencyKey → Exec (List IdempotencyKey) Done
record_row start new (some row) rows = (ok done, start)
record_row start new none rows = (ok done, rows ++ new ∷ [])

-- A second row for a key is an IntegrityError, which takes the whole transaction back to its start.
unfoldable pub record_response :
    ℕ
    → List IdempotencyKey
    → String
    → String
    → String
    → ℕ
    → String
    → ℕ
    → Exec (List IdempotencyKey) Done
unfolding record_row
record_response ttl_hours start key scope request_hash status body now rows =
    record_row start (stored_response ttl_hours key scope request_hash status body now)
      (find? (keyed key scope) rows) rows

-- The number of the rows that are deleted.
unfoldable pub cleanup_expired : ℕ → Exec (List IdempotencyKey) ℕ
cleanup_expired now rows = (ok (count (is_expired now) rows), without (is_expired now) rows)
