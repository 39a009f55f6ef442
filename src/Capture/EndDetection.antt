-- ===== src/Capture/EndDetection.antt =====
-- capture/end_detection.py: when capture ends, and for which reason. The clock is the argument
-- `idle`; confidences and durations, which the code only compares, are numbers on a common scale.
use pages_to_rgb.Prelude.{
  ℕ, ◌≡◌, ◌≤◌, ◌<◌, Bool, false, not, ◌&&◌, Option, none, some, leb, ◌==◌, arith, if◌then◌else◌,
}

pub data EndReason : Type 0 where
  expected_pages_reached manual visual_marker open_hand hard_idle admin_cancel : EndReason

pub record CaptureState : Type 0 where
  pub logical_pages_count : ℕ
  pub expected_pages : ℕ
  pub pending_uploads : ℕ
  pub burst_in_progress : Bool
  pub open_hand_confidence : ℕ
  pub exam_document_present : Bool
  pub open_hand_confirmations : ℕ
  pub open_hand_window : ℕ

-- The keyword arguments.
pub record Conditions : Type 0 where
  pub manual_requested : Bool
  pub visual_marker_detected : Bool
  pub hard_idle_after : ℕ
  pub open_hand_threshold : ℕ
  pub open_hand_min_confirmations : ℕ
  pub open_hand_max_window : ℕ

unfoldable pub shows_open_hand : CaptureState → Conditions → Bool
shows_open_hand s c =
    leb c.open_hand_threshold s.open_hand_confidence
    && not s.exam_document_present
    && leb c.open_hand_min_confirmations s.open_hand_confirmations
    && leb s.open_hand_window c.open_hand_max_window

unfoldable pub is_hard_idle : CaptureState → Conditions → ℕ → Bool
is_hard_idle s c idle =
    leb c.hard_idle_after idle && (s.pending_uploads == 0) && not s.burst_in_progress

unfoldable pub evaluate_end_conditions : CaptureState → Conditions → ℕ → Option EndReason
unfolding shows_open_hand is_hard_idle
evaluate_end_conditions s c idle =
    if leb s.expected_pages s.logical_pages_count
    then some expected_pages_reached
    else if c.manual_requested
    then some manual
    else if c.visual_marker_detected
    then some visual_marker
    else if shows_open_hand s c
    then some open_hand
    else if is_hard_idle s c idle
    then some hard_idle
    else none

unfoldable pub is_soft_idle : ℕ → ℕ → Bool
is_soft_idle soft_idle_after idle = leb soft_idle_after idle

-- A silent camera ends a capture that is not complete only where nothing is on its way: no upload
-- is pending, no burst is in progress, the camera has been silent for the hard limit, and nobody has
-- asked for the end in another way.
pub hard_idle_is_quiet :
    (s : CaptureState) (c : Conditions) (idle : ℕ)
    → evaluate_end_conditions s c idle ≡ some hard_idle
    → (s.pending_uploads ≡ 0)
      × (s.burst_in_progress ≡ false)
      × (c.hard_idle_after ≤ idle)
      × (s.logical_pages_count < s.expected_pages)
      × (c.manual_requested ≡ false)
      × (c.visual_marker_detected ≡ false)
      × (shows_open_hand s c ≡ false)
unfolding evaluate_end_conditions is_hard_idle
hard_idle_is_quiet s c idle h = ground arith

-- While frames are on their way and the pages are not complete, time alone never ends the capture:
-- the answer is the same however long the camera has been silent.
pub busy_ignores_time :
    (s : CaptureState) (c : Conditions) (idle idle' : ℕ)
    → (s.pending_uploads == 0) && not s.burst_in_progress ≡ false
    → evaluate_end_conditions s c idle ≡ evaluate_end_conditions s c idle'
unfolding evaluate_end_conditions is_hard_idle
busy_ignores_time s c idle idle' h = ground arith
