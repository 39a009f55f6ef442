-- ===== src/Capture/Cursors.antt =====
-- The cursors of capture/commands.py: which row a request gets, once and again.
use pages_to_rgb.Prelude.{
  ℕ, String, ◌≡◌, ◌≤◌, refl, true, false, Option, none, some, List, [], ◌∷◌, ◌++◌, arith, ltb, leb,
  ◌+◌, find?, find?-append_none, if_rule, option_rule, Option-cases, inl, inr, ◌⊎◌, ◌∙◌,
}
use pages_to_rgb.Common.Value.{Value, Fields}
use pages_to_rgb.Common.Exec.{Result, ok}
use pages_to_rgb.Session.State.{SessionState}
use pages_to_rgb.Db.{Db, Session, GatewayCommand}
use pages_to_rgb.Capture.Commands.{
  Directive, next_persistent_command, for_state, serve, persist, insert_command, next_cursor,
  max_cursor, has_cursor, max_exact_cursor,
}

without_max :
    (n c : ℕ) (rows : List GatewayCommand)
    → max_cursor n rows ≡ none
    → find? (has_cursor n c) rows ≡ none
unfolding max_cursor
without_max n c [] h = refl
without_max n c (row ∷ rows) h = elim (Option-cases (max_cursor n rows)) [
  | inl e ↦ ground (arith, rw e at h, without_max n c rows e)
  | inr (k, e) ↦ ground (arith, rw e at h)
]

above_max :
    (n c : ℕ) (rows : List GatewayCommand) {m : ℕ}
    → max_cursor n rows ≡ some m
    → m + 1 ≤ c
    → find? (has_cursor n c) rows ≡ none
unfolding max_cursor
above_max n c [] h le = refl
above_max n c (row ∷ rows) {m} h le = elim (Option-cases (max_cursor n rows)) [
  | inl e ↦ ground (arith, rw e at h, without_max n c rows e)
  | inr (k, e) ↦ ground (arith, rw e at h, above_max n c rows {m = k} e)
]

-- A new row of a session with a cursor that none of its rows has is the one that the cursor finds.
new_found :
    (n c : ℕ) (rows : List GatewayCommand) (row : GatewayCommand)
    → find? (has_cursor n c) rows ≡ none
    → has_cursor n c row ≡ true
    → find? (has_cursor n c) (rows ++ row ∷ []) ≡ some row
new_found n c rows row absent h =
    rw (find?-append_none (has_cursor n c) rows (row ∷ []) absent) (rw h refl)

has_own_cursor :
    (n t : ℕ) (row : GatewayCommand)
    → row.session_id ≡ n
    → row.cursor ≡ t
    → has_cursor n t row ≡ true
has_own_cursor n t row h k = ground arith

added_found :
    (n t : ℕ) (rows : List GatewayCommand) (new row : GatewayCommand)
    → find? (has_cursor n t) rows ≡ none
    → ok new ≡ ok row
    → new.session_id ≡ n
    → row.cursor ≡ t
    → find? (has_cursor n t) (rows ++ new ∷ []) ≡ some row
added_found n t rows new row absent k h at =
    new_found n t rows new absent (has_own_cursor n t new h (cc (k, at))) ∙ cc k

-- The cursor that a request takes has no row yet.
next_fresh :
    (n t : ℕ) (rows : List GatewayCommand)
    → find? (has_cursor n t) rows ≡ none
    → find? (has_cursor n (next_cursor (max_cursor n rows) t)) rows ≡ none
unfolding next_cursor
next_fresh n t rows absent = elim (Option-cases (max_cursor n rows)) [
  | inl e ↦ rw e absent
  | inr (m, e) ↦ rw e (
      if_rule (λ c. find? (has_cursor n c) rows ≡ none) (leb t m) (m + 1) t
        (λ _. above_max n (m + 1) rows e (omega arith)) (λ _. absent))
]

-- The rows after a request: those before it, and at most one new row, whose cursor was free.
abbrev pub Kept : ℕ → List GatewayCommand → Result GatewayCommand × Db → Type 0
Kept n rows (answer, db) =
    (db.gateway_commands ≡ rows)
    ⊎ (row : GatewayCommand) × (answer ≡ ok row)
      × (row.session_id ≡ n)
      × (find? (has_cursor n row.cursor) rows ≡ none)
      × (db.gateway_commands ≡ rows ++ row ∷ [])

-- What the answer of a request for the cursor `t` says about the table it leaves.
abbrev Found : ℕ → ℕ → GatewayCommand → Result GatewayCommand × Db → Type 0
Found n t row (answer, db) =
    answer ≡ ok row
    → row.cursor ≡ t
    → (ltb max_exact_cursor t ≡ false) × (find? (has_cursor n t) db.gateway_commands ≡ some row)

module _ (padded : ℕ → String) where
  persist-Kept :
      (n t : ℕ) (command : Directive × Option Fields) (db : Db)
      → Kept n db.gateway_commands
          (persist padded n t command (find? (has_cursor n t) db.gateway_commands) db)
  unfolding persist insert_command
  persist-Kept n t command db =
      option_rule (λ o. Kept n db.gateway_commands (persist padded n t command o db))
        (find? (has_cursor n t) db.gateway_commands)
        (λ e. inr (_, refl, refl, next_fresh n t db.gateway_commands e, refl)) (λ row _. inl refl)

  serve-Kept :
      (n t : ℕ) (command : Directive × Option Fields) (db : Db)
      → Kept n db.gateway_commands (serve padded n t command db)
  unfolding serve
  serve-Kept n t command db =
      if_rule (Kept n db.gateway_commands) (ltb max_exact_cursor t) _ _ (λ _. inl refl)
        (λ _. persist-Kept n t command db)

  serve-Found :
      (n t : ℕ) (command : Directive × Option Fields) (db : Db) (row : GatewayCommand)
      → Found n t row (serve padded n t command db)
  unfolding serve persist insert_command
  serve-Found n t command db row =
      if_rule (Found n t row) (ltb max_exact_cursor t) _ _ (λ _ k _. cc)
        (λ fits.
          option_rule
            (λ o.
              find? (has_cursor n t) db.gateway_commands ≡ o
              → Found n t row (persist padded n t command o db))
            (find? (has_cursor n t) db.gateway_commands)
            (λ _ absent k at. (fits, added_found n t db.gateway_commands _ row absent k refl at))
            (λ old _ found k at. (fits, cc)) refl)

-- A GET for the next command: its session row, its query and what its long poll reads.
pub record Get : Type 0 where
  pub session : Session
  pub client_cursor : ℕ
  pub phase : String
  pub wait_ms : ℕ
  pub observed : ℕ → Option SessionState

module _ (padded : ℕ → String) (normalize : String → String) (int_of : Value → ℕ)
    (str_of : Value → String) where
  abbrev pub respond : Get → Db → Result GatewayCommand × Db
  respond g =
      next_persistent_command padded normalize int_of str_of g.session g.client_cursor g.phase
        g.wait_ms g.observed

  pub get_keeps : (g : Get) (db : Db) → Kept g.session.id db.gateway_commands (respond g db)
  unfolding next_persistent_command for_state
  get_keeps g db =
      if_rule (Kept g.session.id db.gateway_commands) (ltb max_exact_cursor g.client_cursor) _ _
        (λ _. inl refl)
        (λ _.
          option_rule
            (λ o. Kept g.session.id db.gateway_commands (
              for_state padded normalize int_of str_of g.session o g.client_cursor g.phase g.wait_ms
                g.observed db))
            g.session.status (λ _. inl refl)
            (λ state _. serve-Kept padded g.session.id (g.client_cursor + 1) _ db))

  get-Found :
      (g : Get) (db : Db) (row : GatewayCommand)
      → Found g.session.id (g.client_cursor + 1) row (respond g db)
  unfolding next_persistent_command for_state
  get-Found g db row =
      if_rule (Found g.session.id (g.client_cursor + 1) row) (ltb max_exact_cursor g.client_cursor)
        _ _ (λ _ k _. cc)
        (λ _.
          option_rule
            (λ o. Found g.session.id (g.client_cursor + 1) row (
              for_state padded normalize int_of str_of g.session o g.client_cursor g.phase g.wait_ms
                g.observed db))
            g.session.status (λ _ k _. cc)
            (λ state _. serve-Found padded g.session.id (g.client_cursor + 1) _ db row))

  get_known :
      (g : Get) (db : Db) {row : GatewayCommand} {state : SessionState}
      → g.session.status ≡ some state
      → ltb max_exact_cursor (g.client_cursor + 1) ≡ false
      → find? (has_cursor g.session.id (g.client_cursor + 1)) db.gateway_commands ≡ some row
      → respond g db ≡ (ok row, db)
  unfolding next_persistent_command for_state serve persist
  get_known g db status fits found = rw status (rw found (ground arith))

  -- A GET whose answer is the row after the client's cursor is repeated without effect: whatever the
  -- session's state, the phase and the waits are then, the same cursor gets the same row, and
  -- nothing is written.
  pub get_repeats :
      (g g' : Get) (db : Db) {row : GatewayCommand} {state : SessionState}
      → (respond g db).0 ≡ ok row
      → row.cursor ≡ g.client_cursor + 1
      → g'.session.id ≡ g.session.id
      → g'.session.status ≡ some state
      → g'.client_cursor ≡ g.client_cursor
      → respond g' (respond g db).1 ≡ (ok row, (respond g db).1)
  get_repeats g g' db {row} h at id status cursor =
      let f = get-Found g db row h at in
      get_known g' (respond g db).1 status (rw cursor f.0) (rw (id, cursor) f.1)
