-- ===== src/Session/Paths.antt =====
-- What the transition table of domain/state_machine.py guarantees of every path through it.
use pages_to_rgb.Prelude.{◌≡◌, ◌≢◌, refl, ◌⊎◌, Bool, true, false, arith}
use pages_to_rgb.Session.State.{
  SessionState, created, capturing, capture_end_candidate, capture_locking, locked, gate_1, gate_2,
  blocked_gate_1, blocked_gate_2, status_audio, tts_generating, ready, completed,
  failed_recoverable, failed_fatal, cancelled, is_terminal, allowed,
}

-- One transition that the table allows.
pub data Step : SessionState → SessionState → Type 0 where
  step : (s t : SessionState) → allowed s t ≡ true → Step s t

pub data Path* : SessionState → SessionState → Type 0 where
  here : {s : SessionState} → Path* s s
  next : {s t u : SessionState} → Path* s t → Step t u → Path* s u

pub Path*-trans : {s t u : SessionState} → Path* s t → Path* t u → Path* s u
Path*-trans p here = p
Path*-trans p (next q e) = next (Path*-trans p q) e

-- The states up to the lock, in which frames are still accepted.
unfoldable pub in_capture : SessionState → Bool
in_capture created = true
in_capture capturing = true
in_capture capture_end_candidate = true
in_capture capture_locking = true
in_capture locked = true
in_capture _ = false

terminal_step : (s t : SessionState) → is_terminal s ≡ true → allowed s t ≡ false
unfolding is_terminal allowed
terminal_step completed t h = refl
terminal_step failed_fatal t h = refl
terminal_step cancelled t h = refl
terminal_step _ t h = cc

capture_step :
    (s t : SessionState) → in_capture s ≡ false → allowed s t ≡ true → in_capture t ≡ false
unfolding in_capture allowed
capture_step created t h a = cc
capture_step _ t h a = ground arith

tts_step : (s : SessionState) → allowed s tts_generating ≡ true → (s ≡ gate_2) ⊎ (s ≡ status_audio)
unfolding allowed
tts_step s h = ground arith

completed_step : (s : SessionState) → allowed s completed ≡ true → (s ≡ ready) ⊎ (s ≡ status_audio)
unfolding allowed
completed_step s h = ground arith

-- A session that is completed, failed for good or cancelled stays in that state on every path.
pub terminal_absorbs : {s t : SessionState} → is_terminal s ≡ true → Path* s t → t ≡ s
terminal_absorbs h here = refl
terminal_absorbs h (next p (step a b e)) = cc (terminal_step a b (rw (terminal_absorbs h p) h), e)

-- After the capture phase no path leads back into it: a session never accepts frames again.
pub capture_closed : {s t : SessionState} → in_capture s ≡ false → Path* s t → in_capture t ≡ false
capture_closed h here = h
capture_closed h (next p (step a b e)) = capture_step a b (capture_closed h p) e

one_step : (s t : SessionState) → allowed s t ≡ true → Path* s t
one_step s t e = next here (step s t e)

two_steps : (s t u : SessionState) → allowed s t ≡ true → allowed t u ≡ true → Path* s u
two_steps s t u e f = next (one_step s t e) (step t u f)

abbrev pub Ends : SessionState → Type 0
Ends s = (t : SessionState) × (is_terminal t ≡ true) × Path* s t

-- No session is stuck: from every state a path of the table leads to a terminal state.
pub every_session_can_end : (s : SessionState) → Ends s
unfolding allowed is_terminal
every_session_can_end created = (cancelled, refl, one_step created cancelled refl)
every_session_can_end capturing = (cancelled, refl, one_step capturing cancelled refl)
every_session_can_end capture_end_candidate =
    (cancelled, refl, one_step capture_end_candidate cancelled refl)
every_session_can_end capture_locking = (cancelled, refl, one_step capture_locking cancelled refl)
every_session_can_end locked = (cancelled, refl, one_step locked cancelled refl)
every_session_can_end gate_1 =
    (failed_fatal, refl, two_steps gate_1 blocked_gate_1 failed_fatal refl refl)
every_session_can_end gate_2 =
    (failed_fatal, refl, two_steps gate_2 blocked_gate_2 failed_fatal refl refl)
every_session_can_end blocked_gate_1 =
    (failed_fatal, refl, one_step blocked_gate_1 failed_fatal refl)
every_session_can_end blocked_gate_2 =
    (failed_fatal, refl, one_step blocked_gate_2 failed_fatal refl)
every_session_can_end status_audio = (completed, refl, one_step status_audio completed refl)
every_session_can_end ready = (completed, refl, one_step ready completed refl)
every_session_can_end failed_recoverable =
    (cancelled, refl, one_step failed_recoverable cancelled refl)
every_session_can_end completed = (completed, refl, here)
every_session_can_end failed_fatal = (failed_fatal, refl, here)
every_session_can_end cancelled = (cancelled, refl, here)
every_session_can_end s = (cancelled, refl, two_steps s failed_recoverable cancelled refl refl)

-- No answer audio without its way in: a path that begins before the audio states and ends in
-- `TTS_GENERATING` passes its last step from `GATE_2` or `STATUS_AUDIO`.
pub tts_entered :
    {s t : SessionState}
    → Path* s t
    → s ≢ tts_generating
    → t ≡ tts_generating
    → (m : SessionState) × Path* s m × ((m ≡ gate_2) ⊎ (m ≡ status_audio))
tts_entered here n e = absurd (n e)
tts_entered (next p (step a b h)) n e = (a, p, tts_step a (rw e at h))

-- A session is completed only from `READY` or `STATUS_AUDIO`.
pub completed_entered :
    {s t : SessionState}
    → Path* s t
    → s ≢ completed
    → t ≡ completed
    → (m : SessionState) × Path* s m × ((m ≡ ready) ⊎ (m ≡ status_audio))
completed_entered here n e = absurd (n e)
completed_entered (next p (step a b h)) n e = (a, p, completed_step a (rw e at h))
