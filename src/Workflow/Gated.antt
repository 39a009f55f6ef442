-- ===== src/Workflow/Gated.antt =====
-- The two gates of workflows/process_exam.py: what a run executes when a gate has not passed.
use pages_to_rgb.Prelude.{
  ◌≡◌, refl, Bool, true, false, List, [], ◌∷◌, Option, none, some, any, option_rule, Bool-cases,
  if◌then◌else◌, sym, ◌∙◌, inl, inr, ap,
}
use pages_to_rgb.Session.State.{
  tts_generating, rag_retrieving, blocked_gate_1, blocked_gate_2, status_audio, ◌≈◌,
}
use pages_to_rgb.Workflow.Program.{
  Activity, Reply, Program, Engine, done, call, calls, execute, get_flag, resume, evaluate_gate1,
  evaluate_gate2, retrieve_knowledge, solve_questions, verify_questions, arbitrate_disagreements,
  rescue_failed_answers, generate_answer_audio, assemble_final_audio, emit_pre_correction_status,
  validate_final_audio, publish_final_audio, advance_session_state,
}
use pages_to_rgb.Workflow.ProcessExam.{
  ExamResult, run, correction, after_correction, audio_pipeline, finish,
}

-- `gateN_passed`, from what the engine answers.
abbrev pub passed : Option Reply → Bool
passed none = false
passed (some r) = get_flag r

-- The activities that correct the exam (steps 9 to 14).
unfoldable pub corrects : Activity → Bool
corrects retrieve_knowledge = true
corrects solve_questions = true
corrects verify_questions = true
corrects arbitrate_disagreements = true
corrects rescue_failed_answers = true
corrects evaluate_gate2 = true
corrects _ = false

-- The activities that make the answer audio (steps 16 to 19), and the step into their state.
unfoldable pub makes_audio : Activity → Bool
makes_audio generate_answer_audio = true
makes_audio assemble_final_audio = true
makes_audio validate_final_audio = true
makes_audio publish_final_audio = true
makes_audio (advance_session_state t) = t ≈ tts_generating
makes_audio _ = false

module _ (engine : Engine) (bad : Activity → Bool) where
  unfoldable Avoids : Program ExamResult → Type 0
  Avoids (done r) = Unit {0}
  Avoids (call a k) = (bad a ≡ false) × ((r : Reply) → engine a ≡ some r → Avoids (k r))

  calls-Avoids :
      (steps : List Activity) (p : Program ExamResult)
      → any bad steps ≡ false
      → Avoids p
      → Avoids (calls steps p)
  unfolding Avoids calls
  calls-Avoids [] p l h = h
  calls-Avoids (a ∷ rest) p l h = elim (Bool-cases (bad a)) [
    | inl e ↦ cc (rw e at l)
    | inr e ↦ (e, λ r _. calls-Avoids rest p (rw e at l) h)
  ]

  Avoids-runs : (p : Program ExamResult) → Avoids p → any bad (execute engine p).0 ≡ false
  unfolding Avoids execute resume
  Avoids-runs (done r) h = refl
  Avoids-runs (call a k) h =
      option_rule (λ o. engine a ≡ o → any bad (resume a o (λ r. execute engine (k r))).0 ≡ false)
        (engine a) (λ _ _. rw h.0 refl) (λ r _ e. rw h.0 (Avoids-runs (k r) (h.1 r e))) refl

module _ (engine : Engine) where
  silent-Avoids : (gate1 : Bool) → Avoids engine makes_audio (audio_pipeline gate1 false)
  unfolding Avoids audio_pipeline finish makes_audio
  silent-Avoids gate1 = (refl, λ r _. tt)

  ended-Avoids : Avoids engine corrects (after_correction false false)
  unfolding Avoids after_correction audio_pipeline finish corrects
  ended-Avoids = calls-Avoids engine corrects _ _ refl (refl, λ r _. tt)

  blocked-Avoids : (gate1 : Bool) → Avoids engine makes_audio (after_correction gate1 false)
  unfolding after_correction makes_audio
  blocked-Avoids true = calls-Avoids engine makes_audio _ _ refl (silent-Avoids true)
  blocked-Avoids false = calls-Avoids engine makes_audio _ _ refl (silent-Avoids false)

  uncorrected :
      (gate1 : Bool)
      → gate1 ≡ false
      → Avoids engine corrects (
          calls
            (advance_session_state (if gate1 then rag_retrieving else blocked_gate_1)
              ∷ emit_pre_correction_status
              ∷ [])
            (correction gate1))
  unfolding correction corrects
  uncorrected true h = cc
  uncorrected false h = calls-Avoids engine corrects _ _ refl ended-Avoids

  unsaid :
      (gate2 : Bool)
      → gate2 ≡ false
      → Avoids engine makes_audio (
          calls
            (advance_session_state (if gate2 then status_audio else blocked_gate_2) ∷ [])
            (after_correction true gate2))
  unfolding makes_audio
  unsaid true h = cc
  unsaid false h = calls-Avoids engine makes_audio _ _ refl (blocked-Avoids true)

  silent :
      (gate1 : Bool)
      → passed (engine evaluate_gate2) ≡ false
      → Avoids engine makes_audio (
          calls
            (advance_session_state (if gate1 then rag_retrieving else blocked_gate_1)
              ∷ emit_pre_correction_status
              ∷ [])
            (correction gate1))
  unfolding correction makes_audio Avoids
  silent true h = calls-Avoids engine makes_audio _ _ refl (
      calls-Avoids engine makes_audio _ _ refl
        (refl, λ r e. unsaid (get_flag r) (sym (ap passed e) ∙ h)))
  silent false h = calls-Avoids engine makes_audio _ _ refl (blocked-Avoids false)

  run_uncorrected : passed (engine evaluate_gate1) ≡ false → Avoids engine corrects run
  unfolding run corrects Avoids
  run_uncorrected h =
      calls-Avoids engine corrects _ _ refl
        (refl, λ r e. uncorrected (get_flag r) (sym (ap passed e) ∙ h))

  run_silent : passed (engine evaluate_gate2) ≡ false → Avoids engine makes_audio run
  unfolding run makes_audio Avoids
  run_silent h = calls-Avoids engine makes_audio _ _ refl (refl, λ r e. silent (get_flag r) h)

  -- Without a passed gate 1 no run retrieves knowledge, solves, verifies, arbitrates, rescues
  -- answers or evaluates gate 2.
  pub no_correction_without_gate_1 :
      passed (engine evaluate_gate1) ≡ false → any corrects (execute engine run).0 ≡ false
  no_correction_without_gate_1 h = Avoids-runs engine corrects run (run_uncorrected h)

  -- Without a passed gate 2 no run generates, assembles, validates or publishes answer audio, or
  -- moves the session to `TTS_GENERATING`.
  pub no_audio_without_gate_2 :
      passed (engine evaluate_gate2) ≡ false → any makes_audio (execute engine run).0 ≡ false
  no_audio_without_gate_2 h = Avoids-runs engine makes_audio run (run_silent h)
