-- ===== src/Session/Laws.antt =====
-- What one call of `transition_session` does on each of its branches, and what
-- `advance_session_state` and a whole series of calls make of a session.
use pages_to_rgb.Prelude.{
  ℕ, String, ◌≡◌, ◌≢◌, refl, true, false, Option, none, some, List, [], ◌∷◌, find?, update, arith,
  Bool-cases, inl, inr, length, length-snoc, ◌+◌, ◌⊎◌, find?-test, ==_iff, str_eq, ◌∙◌, sym, ap,
  Option-cases,
}
use pages_to_rgb.Common.Value.{Fields, end, field, text}
use pages_to_rgb.Common.Exec.{ok, err, app_error}
use pages_to_rgb.Session.State.{
  SessionState, allowed, capture_end_candidate, capture_locking, locked, ◌≈◌,
}
use pages_to_rgb.Session.Paths.{Path*, here, next, step, Path*-trans}
use pages_to_rgb.Session.Transition.{
  transition_session, advance_session_state, lock_session, with_snapshots, by_id, write_session,
  transition_event, invalid_event,
}
use pages_to_rgb.Db.{Db, Session, add_audit}

module _ (n : ℕ) (target : SessionState) (reason : Option String) (actor : String) (extra : Fields)
    (now : ℕ) (db : Db) {s : Session} {current : SessionState}
    (found : find? (by_id n) db.sessions ≡ some s) (status : s.status ≡ some current) where
  pub transition_allowed :
      allowed current target ≡ true
      → let s' : Session = record s { status = some target; updated_at = now } in
        transition_session n target reason actor extra now db ≡ (
          ok s',
          add_audit (transition_event s current target reason actor extra) (write_session s' db),
        )
  unfolding transition_session
  transition_allowed h = rw (found) (rw status (rw h))

  pub transition_refused :
      allowed current target ≡ false
      → transition_session n target reason actor extra now db ≡ (
        err (app_error "INVALID_STATE_TRANSITION" 409),
        add_audit (invalid_event s current target reason actor) db,
      )
  unfolding transition_session
  transition_refused h = rw found (rw status (rw h))

-- The row that a write leaves is the row that the next read of that id finds.
pub find-write_session :
    (n : ℕ) (s s' : Session) (rows : List Session)
    → find? (by_id n) rows ≡ some s
    → s'.id ≡ s.id
    → find? (by_id n) (update (by_id s'.id) (λ _. s') rows) ≡ some s'
find-write_session n s s' [] h e = cc
find-write_session n s s' (x ∷ xs) h e = ground (arith, find-write_session n s s' xs)

-- A write of one session is not seen by a read of another.
find-write_session_ne :
    (m : ℕ) (s' : Session) (rows : List Session)
    → m ≢ s'.id
    → find? (by_id m) (update (by_id s'.id) (λ _. s') rows) ≡ find? (by_id m) rows
find-write_session_ne m s' [] h = refl
find-write_session_ne m s' (x ∷ xs) h = ground (arith, find-write_session_ne m s' xs h)

-- The status of the session with an id, `none` if there is no row or its text is no state.
abbrev row_status : Option Session → Option SessionState
row_status none = none
row_status (some s) = s.status

abbrev pub status_in : Db → ℕ → Option SessionState
status_in db n = row_status (find? (by_id n) db.sessions)

-- What a call leaves: an allowed target is the new status, and any other leaves the old one.
abbrev pub Moved : SessionState → SessionState → Option SessionState → Type 0
Moved current target after =
    ((allowed current target ≡ true) × (after ≡ some target))
    ⊎ ((allowed current target ≡ false) × (after ≡ some current))

module _ (n : ℕ) (target : SessionState) (reason : Option String) (actor : String) (extra : Fields)
    (now : ℕ) (db : Db) {s : Session} {current : SessionState}
    (found : find? (by_id n) db.sessions ≡ some s) (status : s.status ≡ some current) where
  id_of_found : s.id ≡ n
  id_of_found = (==_iff s.id n).0 (find?-test (by_id n) db.sessions found)

  -- Whatever the target, a call moves the session's status to the target if the table allows it and
  -- leaves the status if it does not, and it appends exactly one audit event.
  pub transition_moves :
      let db' = (transition_session n target reason actor extra now db).1 in
      Moved current target (status_in db' n) × (length db'.audit ≡ length db.audit + 1)
  transition_moves = elim (Bool-cases (allowed current target)) [
    | inl h ↦ rw (transition_allowed n target reason actor extra now db found status h) (
        let s' : Session = record s { status = some target; updated_at = now } in
        (
          inl (h, rw (find-write_session n s s' db.sessions found refl)),
          length-snoc db.audit (transition_event s current target reason actor extra),
        ))
    | inr h ↦ rw (transition_refused n target reason actor extra now db found status h) (
      inr (h, rw found status),
      length-snoc db.audit (invalid_event s current target reason actor),
    )
  ]

  -- A call leaves the row of every other session.
  pub transition_frames :
      (m : ℕ)
      → m ≢ n
      → find? (by_id m) (transition_session n target reason actor extra now db).1.sessions
        ≡ find? (by_id m) db.sessions
  transition_frames m ne = elim (Bool-cases (allowed current target)) [
    | inl h ↦
        rw (transition_allowed n target reason actor extra now db found status h)
          (find-write_session_ne m _ db.sessions (λ e. ne (e ∙ id_of_found)))
    | inr h ↦ rw (transition_refused n target reason actor extra now db found status h) refl
  ]

-- A series of calls for one session, whose results the callers ignore.
abbrev pub Attempt : Type 0
Attempt = SessionState × Option String × String × Fields × ℕ

unfoldable pub attempts : ℕ → List Attempt → Db → Db
attempts n [] db = db
attempts n ((target, reason, actor, extra, now) ∷ rest) db =
    attempts n rest (transition_session n target reason actor extra now db).1

pub status_found :
    (db : Db) (n : ℕ) {c : SessionState}
    → status_in db n ≡ some c
    → (s : Session) × (find? (by_id n) db.sessions ≡ some s) × (s.status ≡ some c)
status_found db n h = elim (Option-cases (find? (by_id n) db.sessions)) [
  | inl e ↦ cc (ap row_status e, h)
  | inr (s, e) ↦ (s, e, sym (ap row_status e) ∙ h)
]

-- Refinement: whatever calls are made, in whatever order, the status of the session has moved along
-- a path of the transition table.
pub attempts_follow_table :
    (n : ℕ) (calls : List Attempt) (db : Db) {c : SessionState}
    → status_in db n ≡ some c
    → (t : SessionState) × (status_in (attempts n calls db) n ≡ some t) × Path* c t
unfolding attempts
attempts_follow_table n [] db {c} h = (c, h, here)
attempts_follow_table n ((target, reason, actor, extra, now) ∷ rest) db {c} h =
    let db' = (transition_session n target reason actor extra now db).1 in
    let (s, found, status) = status_found db n h in
    elim (transition_moves n target reason actor extra now db found status).0 [
      | inl (al, e) ↦
          (let (t, e', p) = attempts_follow_table n rest db' e in
            (t, e', Path*-trans (next here (step c target al)) p))
      | inr (_, e) ↦ attempts_follow_table n rest db' e
    ]

module _ (public_id : String) (target : SessionState) (now : ℕ) (db : Db) {s : Session}
    {current : SessionState}
    (loaded : find? (λ (r : Session). str_eq r.public_id public_id) db.sessions ≡ some s)
    (found : find? (by_id s.id) db.sessions ≡ some s) (status : s.status ≡ some current) where
  -- An activity that asks for a transition which the table refuses leaves the database as it was:
  -- the audit event of the refusal, which `transition_session` has added, is rolled back too.
  pub advance_refused :
      (current ≈ target) ≡ false
      → allowed current target ≡ false
      → advance_session_state public_id target now db
        ≡ (err (app_error "INVALID_STATE_TRANSITION" 409), db)
  unfolding advance_session_state
  advance_refused d h = rw loaded (
      rw status (
        rw d (
          rw (
            transition_refused s.id target none "system"
              (field "workflow_activity" (text "advance_session_state") end) now db found status
              h))))

  -- A retried activity whose target is already reached succeeds and writes nothing.
  pub advance_repeated :
      (current ≈ target) ≡ true → advance_session_state public_id target now db ≡ (ok s, db)
  unfolding advance_session_state
  advance_repeated d = rw loaded (rw status (rw d))

candidate_locks : allowed capture_end_candidate capture_locking ≡ true
unfolding allowed
candidate_locks = refl

locking_locks : allowed capture_locking locked ≡ true
unfolding allowed
locking_locks = refl

module _ (end_reason : String) (config provider : Option Fields) (now_text : String) (now : ℕ)
    (s : Session) where
  snapshots_keep :
      let s' = with_snapshots end_reason config provider now_text now s in
      (s'.id ≡ s.id)
      × (s'.status ≡ s.status)
      × (s'.end_reason ≡ some end_reason)
      × (s'.capture_locked_at ≡ some now)
  unfolding with_snapshots
  snapshots_keep = (refl, refl, refl, refl)

only_from_candidate :
    (c : SessionState) → allowed c capture_locking ≡ true → c ≡ capture_end_candidate
unfolding allowed
only_from_candidate c h = ground arith

module _ (n : ℕ) (end_reason : String) (config provider : Option Fields) (now_text : String)
    (now : ℕ) (db : Db) {s : Session} {current : SessionState}
    (found : find? (by_id n) db.sessions ≡ some s) (status : s.status ≡ some current) where
  -- A session that is a candidate for the end of capture is locked: its status is `LOCKED`, its
  -- end reason and the time of the lock are recorded, and two audit events are appended.
  pub lock_session_locks :
      current ≡ capture_end_candidate
      → let db' = (lock_session n end_reason config provider now_text now db).1 in
        (s' : Session) × (find? (by_id n) db'.sessions ≡ some s')
        × (s'.status ≡ some locked)
        × (s'.end_reason ≡ some end_reason)
        × (s'.capture_locked_at ≡ some now)
        × (length db'.audit ≡ length db.audit + 2)
  unfolding lock_session
  lock_session_locks e =
      let s₁ : Session = record s { status = some capture_locking; updated_at = now } in
      let s₂ = with_snapshots end_reason config provider now_text now s₁ in
      let kept = snapshots_keep end_reason config provider now_text now s₁ in
      let s₃ : Session = record s₂ { status = some locked; updated_at = now } in
      let extra = field "end_reason" (text end_reason) end in
      let db₂ = write_session s₂ (
        add_audit
          (transition_event s current capture_locking (some "SESSION_LOCKED") "system" extra)
          (write_session s₁ db)) in
      let found₁ = find-write_session n s s₁ db.sessions found refl in
      let found₂ = find-write_session n s₁ s₂ (write_session s₁ db).sessions found₁ kept.0 in
      rw
        (transition_allowed n capture_locking (some "SESSION_LOCKED") "system" extra now db found
          status (rw e candidate_locks))
        (rw (transition_allowed n locked none "system" end now db₂ found₂ kept.1 locking_locks) (
          s₃,
          find-write_session n s₂ s₃ db₂.sessions found₂ refl,
          refl,
          kept.2,
          kept.3,
          omega (
            arith,
            length-snoc db₂.audit (transition_event s₂ capture_locking locked none "system" end),
            length-snoc db.audit
                (transition_event s current capture_locking (some "SESSION_LOCKED") "system" extra),
          ),
        ))

  -- Any other session is refused, and no row of the table changes.
  pub lock_session_refuses :
      current ≢ capture_end_candidate
      → let r = lock_session n end_reason config provider now_text now db in
        (r.0 ≡ err (app_error "INVALID_STATE_TRANSITION" 409)) × (r.1.sessions ≡ db.sessions)
  unfolding lock_session
  lock_session_refuses ne = elim (Bool-cases (allowed current capture_locking)) [
    | inl h ↦ absurd (ne (only_from_candidate current h))
    | inr h ↦
        rw
          (transition_refused n capture_locking (some "SESSION_LOCKED") "system"
            (field "end_reason" (text end_reason) end) now db found status h)
          (refl, refl)
  ]
