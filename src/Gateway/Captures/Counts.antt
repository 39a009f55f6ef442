-- ===== src/Gateway/Captures/Counts.antt =====
-- apps/api/routers/gateway.py: the count of frames that completes a capture.
use pages_to_rgb.Prelude.{
  ℕ, String, ◌≡◌, refl, sym, ap, true, some, List, [], ◌∷◌, find?, count, update, ◌==◌, All,
  find?-All, if_rule,
}
use pages_to_rgb.Common.Exec.{ok}
use pages_to_rgb.Capture.Upload.Flow.{World}
use pages_to_rgb.Capture.Upload.Rows.{capture_key}
use pages_to_rgb.Capture.Upload.Keys.{of_capture, Counted}
use pages_to_rgb.Gateway.Binding.{bound_to, device_of}
use pages_to_rgb.Gateway.EndSignal.Locked.{get_session-found}
use pages_to_rgb.Gateway.Captures.{capture_complete, complete_row}
use pages_to_rgb.Db.{Session, Device, Capture, Frame}

abbrev CountedBy : List Frame → Capture → Type 0
CountedBy frames k = k.received_frames ≡ count (of_capture k.id) frames

-- A row that is counted replaces the row of its id.
written-Counted :
    (frames : List Frame) (k : Capture) (captures : List Capture)
    → CountedBy frames k
    → All (CountedBy frames) captures
    → All (CountedBy frames) (update (λ (c : Capture). c.id == k.id) (λ _. k) captures)
written-Counted frames k [] counted h = tt
written-Counted frames k (c ∷ captures) counted (now, rest) = (
  if_rule (CountedBy frames) (c.id == k.id) k c (λ _. counted) (λ _. now),
  written-Counted frames k captures counted rest,
)

completed : ℕ → Capture → List Frame → Capture
completed now k frames = record k {
  received_frames = count (of_capture k.id) frames;
  status = "complete";
  completed_at = some now;
}

completed-same :
    (now : ℕ) (k : Capture) (frames : List Frame)
    → CountedBy frames k
    → completed now k frames ≡ record k { status = "complete"; completed_at = some now }
unfolding completed
completed-same now k frames h =
    ap (λ n. record k { received_frames = n; status = "complete"; completed_at = some now }) (sym h)

-- Where the counters of the captures are the numbers of their frames, completing a capture finds the
-- number that its counter holds already: it changes the status and the time of the end only,
-- whatever number the client declares, and the counters stay right.
pub complete_agrees :
    (now : ℕ) (gateway_id session_id capture_id : String) (declared : ℕ) (w : World) {s : Session}
    {d : Device} {k : Capture}
    → find? (bound_to gateway_id session_id w.db) w.db.sessions ≡ some s
    → device_of s w.db ≡ some d
    → d.enabled ≡ true
    → find? (capture_key s.id capture_id) w.db.captures ≡ some k
    → Counted w
    → let out = capture_complete now gateway_id session_id capture_id declared w.db in
      (out.0 ≡ ok (record k { status = "complete"; completed_at = some now }, declared))
      × Counted (record w { db = out.1 })
unfolding capture_complete complete_row completed
complete_agrees now gateway_id session_id capture_id declared w {s} {d} {k} found device enabled
      there counted =
    let now_counted =
      find?-All (CountedBy w.db.frames) (capture_key s.id capture_id) w.db.captures counted there in
    rw (get_session-found gateway_id session_id w.db found device enabled) (
      rw there (
        ap (λ k'. ok (k', declared)) (completed-same now k w.db.frames now_counted),
        written-Counted w.db.frames (completed now k w.db.frames) w.db.captures refl counted,
      ))
