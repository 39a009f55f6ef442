-- ===== src/Workflow/Guards.antt =====
-- What every run of the workflow keeps: the transition table, and the two gates.
use pages_to_rgb.Prelude.{
  ◌≡◌, refl, Bool, true, false, List, [], ◌∷◌, Option, none, some, ◌⊎◌, inl, inr, Bool-cases,
  option_rule, if◌then◌else◌,
}
use pages_to_rgb.Session.State.{
  SessionState, allowed, locked, completed, failed_recoverable, ready, gate_1, gate_2,
  blocked_gate_1, blocked_gate_2, rag_retrieving, status_audio, audio_validating, tts_generating,
}
use pages_to_rgb.Workflow.Program.{
  Activity, Reply, Program, Engine, done, call, calls, execute, get_flag, resume,
  emit_pre_correction_status, complete_session, advance_session_state,
}
use pages_to_rgb.Workflow.ProcessExam.{
  ExamResult, audio_publication_failed, audio_validation_failed, run, correction, after_correction,
  audio_pipeline, validated, published, finish,
}

-- The state that an activity asks for.
unfoldable pub target : SessionState → Activity → SessionState
target s (advance_session_state t) = t
target s complete_session = completed
target s _ = s

-- Whether the table lets an activity do what it does to a session in a state.
unfoldable pub may : SessionState → Activity → Bool
may s (advance_session_state t) = allowed s t
may s complete_session = allowed s completed
may s _ = true

-- The state after a list of activities, and whether the table allows all that they ask for.
unfoldable pub after : SessionState → List Activity → SessionState
after s [] = s
after s (a ∷ rest) = after (target s a) rest

unfoldable pub legal : SessionState → List Activity → Bool
legal s [] = true
legal s (a ∷ rest) = if may s a then legal (target s a) rest else false

-- What a finished run leaves.
abbrev pub Ended : SessionState → Option ExamResult → Type 0
Ended t none = Unit {0}
Ended t (some r) =
    ((t ≡ completed) × (r.status ≡ none))
    ⊎ ((t ≡ failed_recoverable) × (r.status ≡ some audio_validation_failed))
    ⊎ ((t ≡ ready) × (r.status ≡ some audio_publication_failed))

-- All runs of a program from a state keep to the table and end as they should.
unfoldable Safe : SessionState → Program ExamResult → Type 0
Safe s (done r) = Ended s (some r)
Safe s (call a k) = (may s a ≡ true) × ((r : Reply) → Safe (target s a) (k r))

calls-Safe :
    (s : SessionState) (steps : List Activity) (p : Program ExamResult)
    → legal s steps ≡ true
    → Safe (after s steps) p
    → Safe s (calls steps p)
unfolding Safe calls legal after
calls-Safe s [] p l h = h
calls-Safe s (a ∷ rest) p l h = elim (Bool-cases (may s a)) [
  | inl e ↦ (e, λ r. calls-Safe (target s a) rest p (rw e at l) h)
  | inr e ↦ cc (rw e at l)
]

Safe-runs :
    (engine : Engine) (s : SessionState) (p : Program ExamResult)
    → Safe s p
    → let (log, result) = execute engine p in (legal s log ≡ true) × Ended (after s log) result
unfolding Safe execute resume legal after
Safe-runs engine s (done r) h = (refl, h)
Safe-runs engine s (call a k) h =
    option_rule
      (λ o.
        let (log, result) = resume a o (λ r. execute engine (k r)) in
        (legal s log ≡ true) × Ended (after s log) result)
      (engine a) (λ _. rw h.0 (refl, tt))
      (λ r _. rw h.0 (Safe-runs engine (target s a) (k r) (h.1 r)))

finish-Safe :
    (gate1 gate2 : Bool) (s : SessionState)
    → may s complete_session ≡ true
    → Safe s (finish gate1 gate2)
unfolding Safe finish target
finish-Safe gate1 gate2 s h = (h, λ r. inl (refl, refl))

published-Safe : (gate1 gate2 publication : Bool) → Safe ready (published gate1 gate2 publication)
unfolding Safe published may allowed
published-Safe gate1 gate2 true = finish-Safe gate1 gate2 ready refl
published-Safe gate1 gate2 false = inr (inr (refl, refl))

validated-Safe : (gate1 gate2 valid : Bool) → Safe audio_validating (validated gate1 gate2 valid)
unfolding Safe validated may allowed calls target
validated-Safe gate1 gate2 true = (refl, λ _. (refl, λ r. published-Safe gate1 gate2 (get_flag r)))
validated-Safe gate1 gate2 false = (refl, λ _. inr (inl (refl, refl)))

audio-Safe : (gate1 : Bool) → Safe tts_generating (audio_pipeline gate1 true)
unfolding audio_pipeline may allowed legal after target Safe
audio-Safe gate1 =
    calls-Safe tts_generating _ _ refl (refl, λ r. validated-Safe gate1 true (get_flag r))

skip-Safe : (gate1 : Bool) → Safe status_audio (audio_pipeline gate1 false)
unfolding audio_pipeline may allowed
skip-Safe gate1 = finish-Safe gate1 false status_audio refl

gate_2-Safe :
    (gate2 : Bool)
    → Safe (if gate2 then status_audio else blocked_gate_2) (after_correction true gate2)
unfolding after_correction may allowed legal after target
gate_2-Safe true = calls-Safe status_audio _ _ refl (audio-Safe true)
gate_2-Safe false = calls-Safe blocked_gate_2 _ _ refl (skip-Safe true)

decided-Safe :
    (gate2 : Bool)
    → Safe gate_2 (
        calls
          (advance_session_state (if gate2 then status_audio else blocked_gate_2) ∷ [])
          (after_correction true gate2))
unfolding may allowed legal after target
decided-Safe true = calls-Safe gate_2 _ _ refl (gate_2-Safe true)
decided-Safe false = calls-Safe gate_2 _ _ refl (gate_2-Safe false)

gate_1-Safe :
    (gate1 : Bool)
    → Safe gate_1 (
        calls
          (advance_session_state (if gate1 then rag_retrieving else blocked_gate_1)
            ∷ emit_pre_correction_status
            ∷ [])
          (correction gate1))
unfolding may allowed legal after target correction after_correction Safe
gate_1-Safe true =
    calls-Safe gate_1 _ _ refl
      (calls-Safe rag_retrieving _ _ refl (refl, λ r. decided-Safe (get_flag r)))
gate_1-Safe false =
    calls-Safe gate_1 _ _ refl (calls-Safe blocked_gate_1 _ _ refl (skip-Safe false))

run-Safe : Safe locked run
unfolding may allowed legal after target Safe run
run-Safe = calls-Safe locked _ _ refl (refl, λ r. gate_1-Safe (get_flag r))

-- In every run, whichever activities raise and whatever the gates, the validation and the
-- publication answer, each activity that moves the session asks for a transition that the table
-- allows, from `LOCKED` on. A run that returns has completed the session, or reports that its audio
-- was not valid and leaves it `FAILED_RECOVERABLE`, or reports that the audio was not published and
-- leaves it `READY`.
pub exam_follows_table :
    (engine : Engine)
    → let (log, result) = execute engine run in
      (legal locked log ≡ true) × Ended (after locked log) result
exam_follows_table engine = Safe-runs engine locked run run-Safe
