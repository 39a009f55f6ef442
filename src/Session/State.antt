-- ===== src/Session/State.antt =====
-- domain/enums/session_state.py and the table of domain/state_machine.py: the states of a session,
-- which of them are terminal, and the transitions that the backend allows.
use pages_to_rgb.Prelude.{ℕ, String, Bool, true, false, ◌||◌, List, [], ◌∷◌, ◌==◌}

pub data SessionState : Type 0 where
  created capturing capture_end_candidate capture_locking locked image_processing : SessionState
  ocr_processing reconstructing rescue_processing gate_1 blocked_gate_1 : SessionState
  rag_retrieving solving verifying arbitrating gate_2 blocked_gate_2 status_audio : SessionState
  tts_generating audio_assembling audio_validating ready completed : SessionState
  failed_recoverable failed_fatal cancelled : SessionState

-- The text of a state, which the columns and the payloads hold.
abbrev pub name : SessionState → String
name created = "CREATED"
name capturing = "CAPTURING"
name capture_end_candidate = "CAPTURE_END_CANDIDATE"
name capture_locking = "CAPTURE_LOCKING"
name locked = "LOCKED"
name image_processing = "IMAGE_PROCESSING"
name ocr_processing = "OCR_PROCESSING"
name reconstructing = "RECONSTRUCTING"
name rescue_processing = "RESCUE_PROCESSING"
name gate_1 = "GATE_1"
name blocked_gate_1 = "BLOCKED_GATE_1"
name rag_retrieving = "RAG_RETRIEVING"
name solving = "SOLVING"
name verifying = "VERIFYING"
name arbitrating = "ARBITRATING"
name gate_2 = "GATE_2"
name blocked_gate_2 = "BLOCKED_GATE_2"
name status_audio = "STATUS_AUDIO"
name tts_generating = "TTS_GENERATING"
name audio_assembling = "AUDIO_ASSEMBLING"
name audio_validating = "AUDIO_VALIDATING"
name ready = "READY"
name completed = "COMPLETED"
name failed_recoverable = "FAILED_RECOVERABLE"
name failed_fatal = "FAILED_FATAL"
name cancelled = "CANCELLED"

-- The place of a state in the enumeration; two members are equal when it is.
abbrev pub position : SessionState → ℕ
position created = 0
position capturing = 1
position capture_end_candidate = 2
position capture_locking = 3
position locked = 4
position image_processing = 5
position ocr_processing = 6
position reconstructing = 7
position rescue_processing = 8
position gate_1 = 9
position blocked_gate_1 = 10
position rag_retrieving = 11
position solving = 12
position verifying = 13
position arbitrating = 14
position gate_2 = 15
position blocked_gate_2 = 16
position status_audio = 17
position tts_generating = 18
position audio_assembling = 19
position audio_validating = 20
position ready = 21
position completed = 22
position failed_recoverable = 23
position failed_fatal = 24
position cancelled = 25

infix 50 ◌≈◌
abbrev pub ◌≈◌ : SessionState → SessionState → Bool
s ≈ t = position s == position t

unfoldable pub is_terminal : SessionState → Bool
is_terminal completed = true
is_terminal failed_fatal = true
is_terminal cancelled = true
is_terminal _ = false

-- `x in {…}`
abbrev pub member : SessionState → List SessionState → Bool
member s [] = false
member s (t ∷ r) = s ≈ t || member s r

unfoldable pub allowed_transitions : SessionState → List SessionState
allowed_transitions created = capturing ∷ cancelled ∷ []
allowed_transitions capturing = capture_end_candidate ∷ cancelled ∷ failed_recoverable ∷ []
allowed_transitions capture_end_candidate = capturing ∷ capture_locking ∷ cancelled ∷ []
allowed_transitions capture_locking = locked ∷ failed_recoverable ∷ cancelled ∷ []
allowed_transitions locked = image_processing ∷ cancelled ∷ []
allowed_transitions image_processing = ocr_processing ∷ failed_recoverable ∷ []
allowed_transitions ocr_processing = reconstructing ∷ failed_recoverable ∷ []
allowed_transitions reconstructing = rescue_processing ∷ gate_1 ∷ failed_recoverable ∷ []
allowed_transitions rescue_processing = gate_1 ∷ failed_recoverable ∷ []
allowed_transitions gate_1 = blocked_gate_1 ∷ rag_retrieving ∷ []
allowed_transitions blocked_gate_1 = status_audio ∷ failed_fatal ∷ []
allowed_transitions rag_retrieving = solving ∷ failed_recoverable ∷ []
allowed_transitions solving = verifying ∷ failed_recoverable ∷ []
allowed_transitions verifying = arbitrating ∷ gate_2 ∷ failed_recoverable ∷ []
allowed_transitions arbitrating = gate_2 ∷ rescue_processing ∷ failed_recoverable ∷ []
allowed_transitions gate_2 = blocked_gate_2 ∷ status_audio ∷ tts_generating ∷ []
allowed_transitions blocked_gate_2 = status_audio ∷ failed_fatal ∷ []
allowed_transitions status_audio = tts_generating ∷ completed ∷ failed_fatal ∷ []
allowed_transitions tts_generating = audio_assembling ∷ failed_recoverable ∷ []
allowed_transitions audio_assembling = audio_validating ∷ failed_recoverable ∷ []
allowed_transitions audio_validating = ready ∷ failed_recoverable ∷ []
allowed_transitions ready = completed ∷ []
allowed_transitions failed_recoverable =
    image_processing ∷ ocr_processing ∷ reconstructing ∷ rescue_processing ∷ rag_retrieving
    ∷ solving ∷ verifying ∷ arbitrating ∷ audio_assembling ∷ audio_validating ∷ failed_fatal
    ∷ cancelled ∷ []
allowed_transitions completed = []
allowed_transitions failed_fatal = []
allowed_transitions cancelled = []

-- `target in ALLOWED_TRANSITIONS[current]`
unfoldable pub allowed : SessionState → SessionState → Bool
unfolding allowed_transitions
allowed current target = member target (allowed_transitions current)
