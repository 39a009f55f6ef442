-- ===== src/Tests/Gateway.antt =====
-- The gateway's commands on sample data.
use pages_to_rgb.Prelude.{
  true, ℕ, String, ◌≡◌, refl, false, Option, none, some, [], ◌∷◌, ◌+◌, ltb, arith,
}
use pages_to_rgb.Common.Value.{Value}
use pages_to_rgb.Common.Exec.{ok}
use pages_to_rgb.Session.State.{SessionState, locked}
use pages_to_rgb.Capture.Commands.{
  Directive, stop, ping, poll, poll_fuel, max_exact_cursor, max_cursor, next_persistent_command,
  for_state, serve, persist, command_row,
}
use pages_to_rgb.Capture.Polling.{poll_ends}
use pages_to_rgb.Capture.Cursors.{Get, respond, get_repeats}
use pages_to_rgb.Capture.EndDetection.{CaptureState, Conditions}
use pages_to_rgb.Capture.Lagging.{lagging_get}
use pages_to_rgb.Db.{Db, GatewayCommand}
use pages_to_rgb.Tests.Data.{session_in, empty_db}

abbrev padded : ℕ → String
padded n = "001"

abbrev normalize : String → String
normalize s = s

abbrev int_of : Value → ℕ
int_of v = 0

abbrev str_of : Value → String
str_of v = ""

abbrev unread : ℕ → Option SessionState
unread k = none

abbrev no_directive : ℕ → Option Directive
no_directive k = none

abbrev get_after : ℕ → Get
get_after cursor = record {
  session = session_in locked;
  client_cursor = cursor;
  phase = "";
  wait_ms = 0;
  observed = unread;
}

abbrev row_at : ℕ → GatewayCommand
row_at cursor = command_row padded 1 cursor (stop, none)

abbrev db_at : ℕ → Db
db_at cursor = record empty_db { gateway_commands = row_at cursor ∷ [] }

poll_ends_example :
    poll no_directive 30000 (poll_fuel + 7) 0 (ping, none)
    ≡ poll no_directive 30000 poll_fuel 0 (ping, none)
poll_ends_example = poll_ends no_directive 30000 7 (ping, none)

get_repeats_example :
    respond padded normalize int_of str_of
      (get_after 0)
      (respond padded normalize int_of str_of (get_after 0) (db_at 1)).1
    ≡ (ok (row_at 1), (respond padded normalize int_of str_of (get_after 0) (db_at 1)).1)
unfolding next_persistent_command for_state serve persist
get_repeats_example =
    get_repeats padded normalize int_of str_of (get_after 0) (get_after 0) (db_at 1)
      {row = row_at 1} refl refl refl refl refl

one_fits : ltb max_exact_cursor 1 ≡ false
unfolding max_exact_cursor
one_fits = refl

last_is_top : max_cursor 1 (row_at 9007199254740991 ∷ []) ≡ some 9007199254740991
unfolding max_cursor
last_is_top = refl

lagging_get_example :
    (lagging_get padded normalize int_of str_of
      (get_after 0)
      (db_at 9007199254740991)
      {state = locked}
      refl
      one_fits
      refl
      last_is_top
      (omega arith)).0.cursor
    ≡ 9007199254740991 + 1
lagging_get_example =
    (lagging_get padded normalize int_of str_of (get_after 0) (db_at 9007199254740991)
      {state = locked} refl one_fits refl last_is_top (omega arith)).3

abbrev silent : CaptureState
silent = record {
  logical_pages_count = 1;
  expected_pages = 2;
  pending_uploads = 0;
  burst_in_progress = false;
  open_hand_confidence = 0;
  exam_document_present = true;
  open_hand_confirmations = 0;
  open_hand_window = 0;
}

abbrev conditions : Conditions
conditions = record {
  manual_requested = false;
  visual_marker_detected = false;
  hard_idle_after = 120;
  open_hand_threshold = 85;
  open_hand_min_confirmations = 2;
  open_hand_max_window = 5;
}
