-- ===== src/Gateway/EndSignal/Walk.antt =====
-- apps/api/routers/gateway.py: the walk of `end_signal` from the states of a capture.
use pages_to_rgb.Prelude.{
  ℕ, ◌≡◌, refl, ◌∙◌, true, false, Bool, Option, none, some, find?, ◌⊎◌, inl, inr,
  find?-replace_both, ==_refl, arith,
}
use pages_to_rgb.Common.Exec.{Result, ok, continue, ◌>>=◌}
use pages_to_rgb.Session.State.{
  SessionState, capturing, capture_end_candidate, capture_locking, locked, allowed, ◌≈◌,
}
use pages_to_rgb.Session.Transition.{transition_event, by_id, write_session}
use pages_to_rgb.Session.Laws.{transition_allowed, find-write_session}
use pages_to_rgb.Rgb.Delivery.Untouched.{Untouched}
use pages_to_rgb.Capture.Upload.Flow.{is_open}
use pages_to_rgb.Gateway.EndSignal.{move, stamp, lock_steps, walk, is_in, end_payload}
use pages_to_rgb.Db.{Db, Session, add_audit}

-- A test of a session that no step of the walk changes.
abbrev pub Stable : (Session → Bool) → Type 0
Stable q =
    (s : Session) (status : Option SessionState) (locked_at : Option ℕ) (now : ℕ)
    → q s ≡ true
    → q (record s { status = status; capture_locked_at = locked_at; updated_at = now }) ≡ true

-- The row of a session, as its id and the test find it.
abbrev pub Row : (Session → Bool) → Db → Session → Type 0
Row q db s =
    (find? (by_id s.id) db.sessions ≡ some s) × (find? q db.sessions ≡ some s) × (q s ≡ true)

write-Row :
    (q : Session → Bool) (db : Db) (s s' : Session)
    → Row q db s
    → s'.id ≡ s.id
    → q s' ≡ true
    → (find? (by_id s.id) (write_session s' db).sessions ≡ some s')
      × (find? q (write_session s' db).sessions ≡ some s')
write-Row q db s s' (keyed, tested, _) same_id test = (
  find-write_session s.id s s' db.sessions keyed same_id,
  find?-replace_both (by_id s'.id) q db.sessions s' (rw same_id keyed) tested test,
)

-- The state that a step reaches, with the row of the session and nothing else but the audit changed.
abbrev pub Reached :
    (Session → Bool) → Db → Session → Result Session × Db → SessionState → Option ℕ → Type 0
Reached q db s out target locked_at =
    (s' : Session) × (db' : Db) × (out ≡ (ok s', db'))
    × Row q db' s'
    × (s'.status ≡ some target)
    × (s'.capture_locked_at ≡ locked_at)
    × (s'.id ≡ s.id)
    × (s'.public_id ≡ s.public_id)
    × Untouched db db'

is_in_state : (s : Session) (state : SessionState) → s.status ≡ some state → is_in s state ≡ true
is_in_state s state h = rw h (==_refl _)

module _ (q : Session → Bool) (stable : Stable q) (now : ℕ) where
  move-Reached :
      (source target : SessionState) (s : Session) (db : Db)
      → Row q db s
      → s.status ≡ some source
      → allowed source target ≡ true
      → Reached q db s (move source target now s db) target s.capture_locked_at
  unfolding move
  move-Reached source target s db row status al =
      let s' : Session = record s { status = some target; updated_at = now } in
      let (keyed, tested) =
        write-Row q db s s' row refl (stable s (some target) s.capture_locked_at now row.2) in
      (
        s',
        add_audit (transition_event s source target none "gateway" end_payload)
            (write_session s' db),
        (rw (is_in_state s source status)
            (transition_allowed s.id target none "gateway" end_payload now db row.0 status al)),
        (keyed, tested, stable s (some target) s.capture_locked_at now row.2),
        refl,
        refl,
        refl,
        refl,
        (refl, refl, refl, refl, refl),
      )

  stamp-Reached :
      (s : Session) (db : Db)
      → Row q db s
      → s.status ≡ some capture_locking
      → Reached q db s (stamp now s db) capture_locking (some now)
  unfolding stamp
  stamp-Reached s db row status =
      let s' : Session = record s { capture_locked_at = some now } in
      let test = stable s s.status (some now) s.updated_at row.2 in
      let (keyed, tested) = write-Row q db s s' row refl test in
      (
        s',
        write_session s' db,
        rw (is_in_state s capture_locking status) refl,
        (keyed, tested, test),
        status,
        refl,
        refl,
        refl,
        (refl, refl, refl, refl, refl),
      )

  -- Two steps in a row.
  then-Reached :
      {first second : SessionState} {at at' : Option ℕ} (s : Session) (db : Db)
      (out : Result Session × Db) (f : Session → Db → Result Session × Db)
      → Reached q db s out first at
      → ((s' : Session) (db' : Db)
          → Row q db' s'
          → s'.status ≡ some first
          → s'.capture_locked_at ≡ at
          → Reached q db' s' (f s' db') second at')
      → Reached q db s (continue out.0 f out.1) second at'
  then-Reached s db out f (s₁, db₁, e, row, status, stamped, id, public_id, same) step =
      let (s₂, db₂, e', row', status', stamped', id', public_id', same') =
        step s₁ db₁ row status stamped in
      rw e (
        s₂,
        db₂,
        e',
        row',
        status',
        stamped',
        id' ∙ id,
        public_id' ∙ public_id,
        (same'.0 ∙ same.0, same'.1 ∙ same.1, same'.2 ∙ same.2, same'.3 ∙ same.3, same'.4 ∙ same.4),
      )

  move-skips :
      (source target : SessionState) (s : Session) (db : Db)
      → is_in s source ≡ false
      → move source target now s db ≡ (ok s, db)
  unfolding move
  move-skips source target s db h = rw h refl

  locking_locks : allowed capture_locking locked ≡ true
  unfolding allowed
  locking_locks = refl

  candidate_locks : allowed capture_end_candidate capture_locking ≡ true
  unfolding allowed
  candidate_locks = refl

  capturing_ends : allowed capturing capture_end_candidate ≡ true
  unfolding allowed
  capturing_ends = refl

  lock_steps-Reached :
      (s : Session) (db : Db)
      → Row q db s
      → s.status ≡ some capture_locking
      → Reached q db s (lock_steps now s db) locked (some now)
  unfolding lock_steps
  lock_steps-Reached s db row status =
      then-Reached s db (stamp now s db) (move capture_locking locked now)
        (stamp-Reached s db row status)
        (λ s' db' row' status' stamped.
          rw⁻¹ stamped (move-Reached capture_locking locked s' db' row' status' locking_locks))

  from_candidate-Reached :
      (s : Session) (db : Db)
      → Row q db s
      → s.status ≡ some capture_end_candidate
      → Reached q db s
          ((move capture_end_candidate capture_locking now s >>= lock_steps now) db)
          locked
          (some now)
  from_candidate-Reached s db row status =
      then-Reached s db (move capture_end_candidate capture_locking now s db) (lock_steps now)
        (move-Reached capture_end_candidate capture_locking s db row status candidate_locks)
        (λ s' db' row' status' _. lock_steps-Reached s' db' row' status')

  skipped :
      (source target : SessionState) (s : Session) (db : Db)
      (f : Session → Db → Result Session × Db) {current : SessionState}
      → s.status ≡ some current
      → (current ≈ source) ≡ false
      → Reached q db s (f s db) locked (some now)
      → Reached q db s ((move source target now s >>= f) db) locked (some now)
  skipped source target s db f status other h =
      rw (move-skips source target s db (rw status other)) h

  open_cases :
      (state : SessionState)
      → is_open state ≡ true
      → (state ≡ capturing) ⊎ (state ≡ capture_end_candidate) ⊎ (state ≡ capture_locking)
  unfolding is_open
  open_cases state h = ground arith

  -- From each of the three states of a capture the walk reaches `LOCKED`.
  pub walk-Reached :
      (s : Session) (db : Db) (state : SessionState)
      → Row q db s
      → s.status ≡ some state
      → is_open state ≡ true
      → Reached q db s (walk now s db) locked (some now)
  unfolding walk
  walk-Reached s db state row status open_state =
      let rest : Session → Db → Result Session × Db =
        λ s'. move capture_end_candidate capture_locking now s' >>= lock_steps now in
      elim (open_cases state open_state) [
        | inl e ↦
            then-Reached s db (move capturing capture_end_candidate now s db) rest
              (move-Reached capturing capture_end_candidate s db row (rw e at status)
                capturing_ends)
              (λ s' db' row' status' _. from_candidate-Reached s' db' row' status')
        | inr (inl e) ↦
            skipped capturing capture_end_candidate s db rest (rw e at status) refl
              (from_candidate-Reached s db row (rw e at status))
        | inr (inr e) ↦ skipped capturing capture_end_candidate s db rest (rw e at status) refl (
            skipped capture_end_candidate capture_locking s db (lock_steps now) (rw e at status)
              refl (lock_steps-Reached s db row (rw e at status)))
      ]
