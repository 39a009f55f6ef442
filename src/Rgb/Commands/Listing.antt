-- ===== src/Rgb/Commands/Listing.antt =====
-- rgb/device_commands.py: `list_gateway_commands`, what a gateway that polls is given.
use pages_to_rgb.Prelude.{
  ℕ, String, Bool, true, ◌&&◌, ◌||◌, Option, none, some, List, [], ◌∷◌, select, take, ltb, leb,
  ◌==◌, if◌then◌else◌, ◌*◌, ◌/◌, max,
}
use pages_to_rgb.Common.Exec.{Exec, ok, ◌>>=◌}
use pages_to_rgb.Db.{Db, Device, Command}
use pages_to_rgb.Rgb.Commands.Lookup.{find_device, locks}

-- `ORDER BY queued_at, command_id`
unfoldable pub not_after : Command → Command → Bool
not_after a b =
    ltb a.queued_at b.queued_at || ((a.queued_at == b.queued_at) && leb a.command_id b.command_id)

unfoldable pub insert_command : Command → List Command → List Command
unfolding not_after
insert_command c [] = c ∷ []
insert_command c (d ∷ ds) = if not_after c d then c ∷ d ∷ ds else d ∷ insert_command c ds

unfoldable pub order_commands : List Command → List Command
unfolding insert_command
order_commands [] = []
order_commands (c ∷ cs) = insert_command c (order_commands cs)

-- The time of queueing, in milliseconds.
abbrev pub queued_millis : Command → ℕ
queued_millis c = c.queued_at / 1000

-- `RgbDeviceCommand.queued_at > after`, `true` where no cursor is given.
unfoldable pub after_cursor : Option ℕ → Command → Bool
after_cursor none c = true
after_cursor (some m) c = ltb (m * 1000) c.queued_at

abbrev pub cursor_or_zero : Option ℕ → ℕ
cursor_or_zero none = 0
cursor_or_zero (some m) = m

unfoldable pub advance_cursor : ℕ → List Command → ℕ
advance_cursor cursor [] = cursor
advance_cursor cursor (c ∷ cs) = advance_cursor (max cursor (queued_millis c)) cs

unfoldable pub listed : ℕ → Option ℕ → ℕ → Db → List Command
unfolding after_cursor order_commands
listed device_id after_millis limit db =
    take limit
      (order_commands (select (λ c. locks device_id c && after_cursor after_millis c) db.commands))

unfoldable pub list_gateway_commands : String → Option ℕ → ℕ → Exec Db (Device × List Command × ℕ)
unfolding listed advance_cursor
list_gateway_commands device_code after_millis limit = find_device device_code >>= λ device db.
    let commands = listed device.id after_millis limit db in
    (ok (device, commands, advance_cursor (cursor_or_zero after_millis) commands), db)
