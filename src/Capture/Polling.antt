-- ===== src/Capture/Polling.antt =====
-- The long poll of capture/commands.py: how long it goes on and what it can answer.
use pages_to_rgb.Prelude.{
  ℕ, String, ◌≡◌, ◌≤◌, refl, true, Option, none, some, ◌⊎◌, inl, inr, ◌||◌, arith, ltb, zero, suc,
  ◌+◌, ◌*◌, min, if_rule, option_rule, if◌then◌else◌,
}
use pages_to_rgb.Common.Value.{Value, Fields}
use pages_to_rgb.Session.State.{SessionState, locked, capture_locking, is_terminal, ◌≈◌}
use pages_to_rgb.Capture.Commands.{
  Directive, stop, is_control, poll, poll_fuel, waited, desired_command,
}

-- A run with enough slices for the deadline is not changed by more of them.
poll_enough :
    (wanted : ℕ → Option Directive) (wait_ms fuel n k : ℕ) (command : Directive × Option Fields)
    → min wait_ms 25000 ≤ (k + fuel) * 250
    → fuel ≤ n
    → poll wanted wait_ms n k command ≡ poll wanted wait_ms fuel k command
unfolding poll
poll_enough wanted wait_ms zero zero k command h le = refl
poll_enough wanted wait_ms zero (suc n) k command h le = ground arith
poll_enough wanted wait_ms (suc fuel) zero k command h le = ground arith
poll_enough wanted wait_ms (suc fuel) (suc n) k command h le =
    ground (arith, poll_enough wanted wait_ms fuel n (k + 1) command)

-- The long poll ends by its own deadline: with any more fuel it answers the same.
pub poll_ends :
    (wanted : ℕ → Option Directive) (wait_ms extra : ℕ) (command : Directive × Option Fields)
    → poll wanted wait_ms (poll_fuel + extra) 0 command ≡ poll wanted wait_ms poll_fuel 0 command
unfolding poll_fuel
poll_ends wanted wait_ms extra command =
    poll_enough wanted wait_ms 100 (100 + extra) 0 command (ground arith) (omega arith)

-- The answer of a poll: the command it began with, or a control command without a payload.
abbrev pub Answer : Directive × Option Fields → Directive × Option Fields → Type 0
Answer command answer = (answer ≡ command) ⊎ (is_control answer.0 ≡ true) × (answer.1 ≡ none)

poll-Answer :
    (wanted : ℕ → Option Directive) (wait_ms fuel k : ℕ) (command : Directive × Option Fields)
    → Answer command (poll wanted wait_ms fuel k command)
unfolding poll
poll-Answer wanted wait_ms zero k command = inl refl
poll-Answer wanted wait_ms (suc fuel) k command =
    if_rule (Answer command) (ltb (k * 250) (min wait_ms 25000)) _ command
      (λ _.
        option_rule
          (λ o. Answer command (elim o [
            | none ↦ command
            | some new ↦
                if is_control new then (new, none) else poll wanted wait_ms fuel (k + 1) command
          ]))
          (wanted k) (λ _. inl refl)
          (λ new _.
            if_rule (Answer command) (is_control new) (new, none) _ (λ c. inr (c, refl))
              (λ _. poll-Answer wanted wait_ms fuel (k + 1) command)))
      (λ _. inl refl)

-- A wait changes the command only to a control command, and then without a payload.
pub waited-Answer :
    (wanted : ℕ → Option Directive) (wait_ms : ℕ) (command : Directive × Option Fields)
    → Answer command (waited wanted wait_ms command)
unfolding waited
waited-Answer wanted wait_ms command =
    if_rule (Answer command) _ (poll wanted wait_ms poll_fuel 0 command) command
      (λ _. poll-Answer wanted wait_ms poll_fuel 0 command) (λ _. inl refl)

-- A session whose capture is being locked, is locked or has ended gets `STOP` at once, whatever its
-- phase and its camera, without a wait.
pub closed_is_stopped :
    (int_of : Value → ℕ) (str_of : Value → String) (wanted : ℕ → Option Directive) (wait_ms : ℕ)
    (state : SessionState) (norm capture_source : String) (config : Option Fields)
    → ((state ≈ locked) || (state ≈ capture_locking) || is_terminal state) ≡ true
    → waited wanted wait_ms (desired_command int_of str_of state norm capture_source config)
      ≡ (stop, none)
unfolding waited desired_command
closed_is_stopped int_of str_of wanted wait_ms state norm capture_source config h =
    rw h (ground arith)
