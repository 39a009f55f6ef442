-- ===== src/Capture/Lagging.antt =====
-- The cursors that capture/commands.py hands out: they stay distinct, and what a client gets whose
-- cursor is behind the rows of its session.
use pages_to_rgb.Prelude.{
  ℕ, String, ◌≡◌, ◌≤◌, refl, true, false, Option, none, some, List, [], ◌∷◌, ◌++◌, arith, ltb, ◌+◌,
  find?, count, count-append, find?-append_none, find?-none-count, max, Option-cases, Bool-cases,
  inl, inr, sym, subst, ap, ◌∙◌,
}
use pages_to_rgb.Common.Value.{Value, Fields}
use pages_to_rgb.Common.Exec.{Result, ok}
use pages_to_rgb.Session.State.{SessionState}
use pages_to_rgb.Db.{Db, GatewayCommand}
use pages_to_rgb.Capture.Commands.{
  next_persistent_command, for_state, serve, persist, insert_command, command_row, next_cursor,
  max_cursor, has_cursor, max_exact_cursor, Directive, waited, directive_for, desired_command,
}
use pages_to_rgb.Capture.Cursors.{Get, respond, get_keeps, Kept}

-- The table has one row for a session and a cursor, as its unique constraint asks.
pub record IsCursors (rows : List GatewayCommand) : Type 0 where
  pub one_row : (n c : ℕ) → count (has_cursor n c) rows ≤ 1

keys_of :
    (m c : ℕ) (row : GatewayCommand)
    → has_cursor m c row ≡ true
    → (m ≡ row.session_id) × (c ≡ row.cursor)
keys_of m c row h = ground arith

own_free :
    (m c n : ℕ) (row : GatewayCommand) (rows : List GatewayCommand)
    → has_cursor m c row ≡ true
    → row.session_id ≡ n
    → find? (has_cursor n row.cursor) rows ≡ none
    → count (has_cursor m c) rows ≡ 0
own_free m c n row rows h own free =
    let (i, j) = keys_of m c row h in
    rw (i, j, own) (find?-none-count (has_cursor n row.cursor) rows free)

Kept-IsCursors :
    (n : ℕ) (rows : List GatewayCommand) (r : Result GatewayCommand × Db)
    → IsCursors rows
    → Kept n rows r
    → IsCursors r.1.gateway_commands
Kept-IsCursors n rows (answer, db) s (inl same) = subst IsCursors (sym same) s
Kept-IsCursors n rows (answer, db) s (inr (row, _, own, free, added)) =
    subst IsCursors (sym added) (record {
      one_row = λ m c. elim (Bool-cases (has_cursor m c row)) [
        | inl e ↦ ground (
          arith,
          count-append (has_cursor m c) rows (row ∷ []),
          own_free m c n row rows e own free,
        )
        | inr e ↦ ground (arith, count-append (has_cursor m c) rows (row ∷ []), s.one_row m c)
      ];
    })

module _ (padded : ℕ → String) (normalize : String → String) (int_of : Value → ℕ)
    (str_of : Value → String) where
  -- A request keeps the cursors of every session distinct.
  pub get-IsCursors :
      (g : Get) (db : Db)
      → IsCursors db.gateway_commands
      → IsCursors (respond padded normalize int_of str_of g db).1.gateway_commands
  get-IsCursors g db s =
      Kept-IsCursors g.session.id db.gateway_commands (respond padded normalize int_of str_of g db)
        s (get_keeps padded normalize int_of str_of g db)

first_cursor :
    (n : ℕ) (rows : List GatewayCommand) (row : GatewayCommand)
    → max_cursor n rows ≡ none
    → row.session_id ≡ n
    → max_cursor n (rows ++ row ∷ []) ≡ some row.cursor
unfolding max_cursor
first_cursor n [] row h own = ground arith
first_cursor n (x ∷ rows) row h own = elim (Option-cases (max_cursor n rows)) [
  | inl e ↦ ground (arith, rw e at h, first_cursor n rows row e own)
  | inr (k, e) ↦ ground (arith, rw e at h)
]

max_cursor-snoc :
    (n : ℕ) (rows : List GatewayCommand) (row : GatewayCommand) {m : ℕ}
    → max_cursor n rows ≡ some m
    → row.session_id ≡ n
    → max_cursor n (rows ++ row ∷ []) ≡ some (max m row.cursor)
unfolding max_cursor
max_cursor-snoc n [] row h own = cc h
max_cursor-snoc n (x ∷ rows) row {m} h own = elim (Option-cases (max_cursor n rows)) [
  | inl e ↦ ground (arith, rw e at h, first_cursor n rows row e own)
  | inr (k, e) ↦ ground (arith, rw e at h, max_cursor-snoc n rows row {m = k} e own)
]

behind_by_one : (m c : ℕ) → c ≤ m → next_cursor (some m) c ≡ m + 1
unfolding next_cursor
behind_by_one m c h = ground arith

other_cursor : (n c : ℕ) (row : GatewayCommand) → c + 1 ≤ row.cursor → has_cursor n c row ≡ false
other_cursor n c row h = ground arith

module _ (padded : ℕ → String) where
  serve_lagging :
      (n t : ℕ) (command : Directive × Option Fields) (db : Db) {m : ℕ}
      → ltb max_exact_cursor t ≡ false
      → find? (has_cursor n t) db.gateway_commands ≡ none
      → max_cursor n db.gateway_commands ≡ some m
      → t ≤ m
      → let row = command_row padded n (m + 1) command in
        serve padded n t command db
        ≡ (ok row, record db { gateway_commands = db.gateway_commands ++ row ∷ [] })
  unfolding serve persist insert_command
  serve_lagging n t command db {m} fits absent top behind =
      rw fits (rw absent (rw top (rw (behind_by_one m t behind) refl)))

  module _ (normalize : String → String) (int_of : Value → ℕ) (str_of : Value → String)
      (g : Get) where
    -- The command that a request comes to after its wait.
    abbrev asked : SessionState → Directive × Option Fields
    asked state =
        waited (λ k. directive_for padded normalize int_of str_of g.session g.phase (g.observed k))
          g.wait_ms
          (desired_command int_of str_of state (normalize g.phase) g.session.capture_source
            g.session.effective_camera_config_json)

    respond_serves :
        (db : Db) {state : SessionState}
        → g.session.status ≡ some state
        → ltb max_exact_cursor (g.client_cursor + 1) ≡ false
        → respond padded normalize int_of str_of g db
          ≡ serve padded g.session.id (g.client_cursor + 1) (asked state) db
    unfolding next_persistent_command for_state
    respond_serves db status fits = rw status (ground arith)

    -- A client whose cursor is behind, at a gap in its session's rows, is not answered the same row
    -- twice: the first GET stores a row past the last one, with the cursor `m + 1`, and the second
    -- GET, with the same client cursor, stores another one, with `m + 2`. No bound is checked again:
    -- where `m` is the greatest exact cursor, both are beyond it.
    pub lagging_get :
        (db : Db) {m : ℕ} {state : SessionState}
        → g.session.status ≡ some state
        → ltb max_exact_cursor (g.client_cursor + 1) ≡ false
        → find? (has_cursor g.session.id (g.client_cursor + 1)) db.gateway_commands ≡ none
        → max_cursor g.session.id db.gateway_commands ≡ some m
        → g.client_cursor + 1 ≤ m
        → let (first, db') = respond padded normalize int_of str_of g db in
          let second = (respond padded normalize int_of str_of g db').0 in
          (row row' : GatewayCommand) × (first ≡ ok row)
          × (row.cursor ≡ m + 1)
          × (second ≡ ok row')
          × (row'.cursor ≡ m + 2)
    lagging_get db {m} {state} status fits absent top behind =
        let n = g.session.id in
        let t = g.client_cursor + 1 in
        let row = command_row padded n (m + 1) (asked state) in
        let rows = db.gateway_commands ++ row ∷ [] in
        let db' = record db { gateway_commands = rows } in
        let absent' : find? (has_cursor n t) rows ≡ none =
          rw (find?-append_none (has_cursor n t) db.gateway_commands (row ∷ []) absent)
            (rw (other_cursor n t row (omega arith)) refl) in
        let top' : max_cursor n rows ≡ some (m + 1) =
          max_cursor-snoc n db.gateway_commands row top refl ∙ ap some (omega arith) in
        rw (respond_serves db status fits) (
          rw (serve_lagging n t (asked state) db fits absent top behind) (
            rw (respond_serves db' status fits) (
              rw (serve_lagging n t (asked state) db' fits absent' top' (omega arith)) (
                row,
                command_row padded n (m + 1 + 1) (asked state),
                refl,
                refl,
                refl,
                omega arith,
              ))))
