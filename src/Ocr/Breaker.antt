-- ===== src/Ocr/Breaker.antt =====
-- ocr/policy.py: the circuit breaker of a provider. A reading of the monotonic clock is a number of
-- microseconds; a reading is never less than an earlier one.
use pages_to_rgb.Prelude.{
  ℕ, Bool, true, false, Option, none, some, List, [], ◌∷◌, ◌++◌, length, count, ltb, leb, ◌-◌,
  if◌then◌else◌,
}

pub record Breaker : Type 0 where
  pub failures : List ℕ
  pub opened_at : Option ℕ

unfoldable pub closed_breaker : Breaker
closed_breaker = record { failures = []; opened_at = none }

-- The first element of a deque goes when it is full.
drop_first : List ℕ → List ℕ
drop_first [] = []
drop_first (t ∷ ts) = ts

-- `deque(maxlen=20)`
unfoldable pub append_failure : List ℕ → ℕ → List ℕ
unfolding drop_first
append_failure failures now =
    if leb 20 (length failures) then drop_first failures ++ now ∷ [] else failures ++ now ∷ []

unfoldable pub record_failure : ℕ → Breaker → Breaker
record_failure now b = record b { failures = append_failure b.failures now }

unfoldable pub record_success : Breaker → Breaker
record_success b = record { failures = []; opened_at = none }

abbrev pub minute : ℕ
minute = 60000000

abbrev pub is_recent : ℕ → ℕ → Bool
is_recent now t = ltb (now - t) minute

unfoldable pub by_opening : ℕ → Breaker → Option ℕ → Bool × Breaker
by_opening now b none =
    if leb 5 (count (is_recent now) b.failures)
    then (true, record b { opened_at = some now })
    else (false, b)
by_opening now b (some t) = if leb minute (now - t) then (false, b) else (true, b)

-- The answer, and the state with the time of an opening.
unfoldable pub is_open : ℕ → Breaker → Bool × Breaker
unfolding by_opening
is_open now b = by_opening now b b.opened_at
