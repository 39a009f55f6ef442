-- ===== src/Ocr/Policy.antt =====
-- ocr/policy.py: the fallback chain over two providers. A call of a provider is a parameter: what the
-- clock reads before it and after it, and the result, `none` where it raises. `low` is whether the
-- confidence of a result is below the threshold.
use pages_to_rgb.Prelude.{ℕ, Bool, true, Option, none, some, List, [], ◌∷◌, ◌++◌, if◌then◌else◌}
use pages_to_rgb.Common.Exec.{Result, ok, err, app_error, raised}
use pages_to_rgb.Ocr.Breaker.{Breaker, is_open, record_failure, record_success}

pub record Call (R : Type 0) : Type 0 where
  pub asked_at : ℕ
  pub ended_at : ℕ
  pub result : Option R

pub data Provider : Type 0 where
  primary fallback : Provider

pub data Event : Type 0 where
  circuit_breaker_skip ocr_provider_failed : Provider → Event
  ocr_low_confidence_fallback ocr_primary_failed_using_fallback : Event

pub record Policy : Type 0 where
  pub cb_primary : Breaker
  pub cb_fallback : Breaker
  pub last_provider_used : Option Provider
  pub fallback_triggered : Bool
  pub events : List Event

unfoldable pub breaker_of : Provider → Policy → Breaker
breaker_of primary p = p.cb_primary
breaker_of fallback p = p.cb_fallback

unfoldable pub with_breaker : Provider → Breaker → Policy → Policy
with_breaker primary b p = record p { cb_primary = b }
with_breaker fallback b p = record p { cb_fallback = b }

unfoldable pub emit : Event → Policy → Policy
emit e p = record p { events = p.events ++ e ∷ [] }

module _ {R : Type 0} (low : R → Bool) where
  unfoldable pub called : Provider → Call R → Option R → Policy → Result R × Policy
  unfolding emit
  called provider call none p = (
    err raised,
    emit (ocr_provider_failed provider)
        (with_breaker provider (record_failure call.ended_at (breaker_of provider p)) p),
  )
  called provider call (some r) p = (
    ok r,
    record (with_breaker provider (record_success (breaker_of provider p)) p) {
      last_provider_used = some provider;
    },
  )

  unfoldable pub try_provider : Provider → Call R → Policy → Result R × Policy
  unfolding called emit
  try_provider provider call p =
      let (opened, b) = is_open call.asked_at (breaker_of provider p) in
      let p' = with_breaker provider b p in
      if opened
      then (err (app_error "OCR_CIRCUIT_BREAKER_OPEN" 500), emit (circuit_breaker_skip provider) p')
      else called provider call call.result p'

  -- The comparison of a result of low confidence with the other provider.
  unfoldable pub compared : R → Result R × Policy → Result R × Policy
  compared r (ok r', p) = (ok r', record p { fallback_triggered = true })
  compared r (err e, p) = (ok r, p)

  unfoldable pub by_confidence : R → Option (Call R) → Policy → Result R × Policy
  unfolding compared emit
  by_confidence r none p = (ok r, p)
  by_confidence r (some other) p =
      if low r
      then compared r (try_provider fallback other (emit ocr_low_confidence_fallback p))
      else (ok r, p)

  unfoldable pub both_failed : Result R × Policy → Result R × Policy
  both_failed (ok r, p) = (ok r, p)
  both_failed (err e, p) = (err (app_error "OCR_ALL_PROVIDERS_FAILED" 500), p)

  unfoldable pub after_primary : Option (Call R) → Result R × Policy → Result R × Policy
  unfolding by_confidence both_failed emit
  after_primary other (ok r, p) = by_confidence r other p
  after_primary none (err e, p) = (err e, p)
  after_primary (some other) (err e, p) = both_failed (
      try_provider fallback other
        (record (emit ocr_primary_failed_using_fallback p) { fallback_triggered = true }))

  -- `other` is the call of the fallback, `none` if there is none.
  unfoldable pub analyze_page : Call R → Option (Call R) → Policy → Result R × Policy
  unfolding after_primary
  analyze_page first other p = after_primary other (try_provider primary first p)
