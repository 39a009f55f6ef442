-- ===== src/Idempotency/Replay.antt =====
-- common/idempotency.py: a response that is stored and asked for again.
use pages_to_rgb.Prelude.{
  ℕ, String, ◌≡◌, ◌≤◌, ◌<◌, refl, ◌∙◌, true, false, Bool, none, some, List, [], ◌∷◌, ◌++◌, find?,
  ◌+◌, ◌*◌, str_eq, eq_refl, eq_iff, sym, arith, find?-append_none, inl, inr, ◌⊎◌, Bool-cases,
}
use pages_to_rgb.Common.Exec.{ok, err, app_error}
use pages_to_rgb.Idempotency.{
  IdempotencyKey, keyed, is_expired, without, check_row, check_and_store, stored_response,
  record_row, record_response, cleanup_expired,
}

find-without :
    (p : IdempotencyKey → Bool) (rows : List IdempotencyKey) → find? p (without p rows) ≡ none
find-without p [] = refl
find-without p (row ∷ rows) = ground (arith, find-without p rows)

module _ (ttl_hours : ℕ) (start : List IdempotencyKey) (key scope request_hash body : String)
    (status now : ℕ) where
  stored_fields :
      let row = stored_response ttl_hours key scope request_hash status body now in
      (keyed key scope row ≡ true)
      × (row.request_hash ≡ request_hash)
      × (row.expires_at ≡ now + ttl_hours * 3600000000)
  unfolding stored_response
  stored_fields = (ground (arith, eq_refl key, eq_refl scope), refl, refl)

  recorded :
      (rows : List IdempotencyKey)
      → find? (keyed key scope) rows ≡ none
      → let row = stored_response ttl_hours key scope request_hash status body now in
        ((record_response ttl_hours start key scope request_hash status body now rows).1
          ≡ rows ++ row ∷ [])
        × (find? (keyed key scope) (rows ++ row ∷ []) ≡ some row)
  unfolding record_response record_row
  recorded rows free =
      let row = stored_response ttl_hours key scope request_hash status body now in
      (
        rw free refl,
        find?-append_none (keyed key scope) rows (row ∷ []) free ∙ rw (stored_fields.0) refl,
      )

  -- A response that is stored under a new key is what a check of that key gets until it expires: the
  -- same request gets the row and changes nothing, and a request with another digest is refused with
  -- the status 409. After it has expired a check gets nothing, and the key is free again.
  pub response_replayed :
      (rows : List IdempotencyKey) (again : String) (later : ℕ)
      → find? (keyed key scope) rows ≡ none
      → let row = stored_response ttl_hours key scope request_hash status body now in
        let after =
          (record_response ttl_hours start key scope request_hash status body now rows).1 in
        let out = check_and_store key scope again later after in
        ((later ≤ now + ttl_hours * 3600000000)
          × (again ≡ request_hash)
          × (out ≡ (ok (some row), after)))
        ⊎ ((later ≤ now + ttl_hours * 3600000000)
            × (str_eq request_hash again ≡ false)
            × (out ≡ (err (app_error "IDEMPOTENCY_KEY_REUSED_WITH_DIFFERENT_PAYLOAD" 409), after)))
        ⊎ ((now + ttl_hours * 3600000000 < later)
            × (out.0 ≡ ok none)
            × (find? (keyed key scope) out.1 ≡ none))
  unfolding check_and_store check_row
  response_replayed rows again later free =
      let row = stored_response ttl_hours key scope request_hash status body now in
      let (written, found) = recorded rows free in
      let (_, hash, expiry) = stored_fields in
      rw written (
        rw found (elim (Bool-cases (is_expired later row)) [
          | inl e ↦ inr (
              inr
                (ground arith, rw e refl, rw e (find-without (keyed key scope) (rows ++ row ∷ []))))
          | inr e ↦ elim (Bool-cases (str_eq row.request_hash again)) [
            | inl same ↦ inl (
              ground arith,
              sym ((eq_iff row.request_hash again).0 same) ∙ hash,
              rw e (rw same refl),
            )
            | inr other ↦ inr (inl (ground arith, rw (hash) at other, rw e (rw other refl)))
          ]
        ]))

-- A row that a test finds is found among the rows that are kept, if every row of the test is kept.
find-kept :
    (p q : IdempotencyKey → Bool) (rows : List IdempotencyKey) {row : IdempotencyKey}
    → find? p rows ≡ some row
    → q row ≡ false
    → find? p (without q rows) ≡ some row
find-kept p q [] h live = cc
find-kept p q (x ∷ rows) {row} h live = ground (arith, find-kept p q rows {row = row})

-- The removal of expired rows is not seen by a check before their time has come: a key whose row is
-- still live gives the same answer as before.
pub cleanup_keeps_live :
    (key scope request_hash : String) (now later : ℕ) (rows : List IdempotencyKey)
    {row : IdempotencyKey}
    → find? (keyed key scope) rows ≡ some row
    → now ≤ row.expires_at
    → later ≤ row.expires_at
    → (check_and_store key scope request_hash later (cleanup_expired now rows).1).0
      ≡ (check_and_store key scope request_hash later rows).0
unfolding check_and_store check_row cleanup_expired
cleanup_keeps_live key scope request_hash now later rows {row} found live still =
    let fresh : is_expired now row ≡ false = ground arith in
    let later_fresh : is_expired later row ≡ false = ground arith in
    rw found (
      rw (find-kept (keyed key scope) (is_expired now) rows {row = row} found fresh) (
        rw later_fresh (elim (Bool-cases (str_eq row.request_hash request_hash)) [
          | inl e ↦ rw e refl
          | inr e ↦ rw e refl
        ])))
