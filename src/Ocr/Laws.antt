-- ===== src/Ocr/Laws.antt =====
-- ocr/policy.py: what the breaker does after failures, and which result a page gets.
use pages_to_rgb.Prelude.{
  ℕ, ◌≡◌, ◌≤◌, refl, false, Bool, Option, none, some, List, [], ◌∷◌, leb, ◌+◌, ◌-◌, arith, if_rule,
}
use pages_to_rgb.Ocr.Breaker.{Breaker, is_open, by_opening, record_failure, minute}

-- What happens to a breaker: a failure is recorded, or it is asked, at some time.
pub data Use : Type 0 where
  fails asks : ℕ → Use

abbrev pub use_time : Use → ℕ
use_time (fails t) = t
use_time (asks t) = t

unfoldable pub after_uses : List Use → Breaker → Breaker
after_uses [] b = b
after_uses (fails t ∷ uses) b = after_uses uses (record_failure t b)
after_uses (asks t ∷ uses) b = after_uses uses (is_open t b).1

failure_keeps : (t : ℕ) (b : Breaker) → (record_failure t b).opened_at ≡ b.opened_at
unfolding record_failure
failure_keeps t b = refl

opening_keeps :
    (t : ℕ) (b : Breaker) (o : Option ℕ) {opened : ℕ}
    → o ≡ some opened
    → b.opened_at ≡ some opened
    → (by_opening t b o).1.opened_at ≡ some opened
unfolding by_opening
opening_keeps t b none e h = cc e
opening_keeps t b (some t') {opened} e h =
    if_rule (λ (out : Bool × Breaker). out.1.opened_at ≡ some opened) (leb minute (t - t')) _ _
      (λ _. h) (λ _. h)

asking_keeps :
    (t : ℕ) (b : Breaker) {opened : ℕ}
    → b.opened_at ≡ some opened
    → (is_open t b).1.opened_at ≡ some opened
unfolding is_open
asking_keeps t b h = opening_keeps t b b.opened_at h h

uses_keep :
    (uses : List Use) (b : Breaker) {opened : ℕ}
    → b.opened_at ≡ some opened
    → (after_uses uses b).opened_at ≡ some opened
unfolding after_uses
uses_keep [] b h = h
uses_keep (fails t ∷ uses) b h = uses_keep uses (record_failure t b) (rw (failure_keeps t b) h)
uses_keep (asks t ∷ uses) b h = uses_keep uses (is_open t b).1 (asking_keeps t b h)

half_open :
    (now : ℕ) (b : Breaker) (o : Option ℕ) {opened : ℕ}
    → o ≡ some opened
    → opened + minute ≤ now
    → (by_opening now b o).0 ≡ false
unfolding by_opening
half_open now b none e late = cc e
half_open now b (some t) {opened} e late =
    let same : t ≡ opened = cc e in
    if_rule (λ (out : Bool × Breaker). out.0 ≡ false) (leb minute (now - t)) _ _ (λ _. refl)
      (λ h. absurd (ground arith))

-- A breaker that has been open for a minute lets every later call through, however many calls have
-- failed since: a failure does not open it again.
pub never_reopens :
    (uses : List Use) (b : Breaker) (opened now : ℕ)
    → b.opened_at ≡ some opened
    → opened + minute ≤ now
    → (is_open now (after_uses uses b)).0 ≡ false
unfolding is_open
never_reopens uses b opened now h late =
    half_open now (after_uses uses b) (after_uses uses b).opened_at (uses_keep uses b h) late
