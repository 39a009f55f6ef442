-- ===== src/Ocr/Chain.antt =====
-- ocr/policy.py: which result a page gets from the two providers.
use pages_to_rgb.Prelude.{
  ◌≡◌, refl, true, false, Bool, Option, none, some, ◌⊎◌, inl, inr, if_rule, Bool-cases,
  if◌then◌else◌,
}
use pages_to_rgb.Common.Exec.{Result, ok, err, app_error, raised, Error}
use pages_to_rgb.Ocr.Breaker.{is_open}
use pages_to_rgb.Ocr.Policy.{
  Call, Policy, Provider, primary, fallback, ocr_low_confidence_fallback,
  ocr_primary_failed_using_fallback, try_provider, analyze_page, breaker_of, with_breaker, called,
  by_confidence, compared, both_failed, after_primary, emit,
}

-- What a call gives to the chain: nothing if its breaker is open or it raises.
abbrev pub answer : {R : Type 0} → Provider → Call R → Policy → Option R
answer provider call p =
    if (is_open call.asked_at (breaker_of provider p)).0 then none else call.result

-- The result of a page by the answers of the two providers.
unfoldable pub choice : {R : Type 0} → (R → Bool) → Option R → Option R → Result R
choice low (some r) (some r') = if low r then ok r' else ok r
choice low (some r) none = ok r
choice low none (some r') = ok r'
choice low none none = err (app_error "OCR_ALL_PROVIDERS_FAILED" 500)

-- What one call gives, as its result shows.
abbrev Tried : {R : Type 0} → Option R → Result R → Type 0
Tried {R} answered out =
    ((r : R) × (answered ≡ some r) × (out ≡ ok r))
    ⊎ ((e : Error) × (answered ≡ none) × (out ≡ err e))

module _ {R : Type 0} (low : R → Bool) where
  called-Tried :
      (provider : Provider) (call : Call R) (o : Option R) (p : Policy)
      → Tried o (called low provider call o p).0
  unfolding called
  called-Tried provider call none p = inr (raised, refl, refl)
  called-Tried provider call (some r) p = inl (r, refl, refl)

  gated-Tried :
      (provider : Provider) (call : Call R) (opened : Bool) (p p' : Policy)
      → Tried {R = R}
          (if opened then none else call.result)
          (if opened
            then (err (app_error "OCR_CIRCUIT_BREAKER_OPEN" 500), p')
            else called low provider call call.result p).0
  gated-Tried provider call true p p' = inr (app_error "OCR_CIRCUIT_BREAKER_OPEN" 500, refl, refl)
  gated-Tried provider call false p p' = called-Tried provider call call.result p

  try_provider-Tried :
      (provider : Provider) (call : Call R) (p : Policy)
      → Tried (answer provider call p) (try_provider low provider call p).0
  unfolding try_provider
  try_provider-Tried provider call p =
      gated-Tried provider call (is_open call.asked_at (breaker_of provider p)).0 _ _

  -- A call of the primary provider leaves the breaker of the fallback.
  called-apart :
      (call : Call R) (o : Option R) (p : Policy)
      → (called low primary call o p).1.cb_fallback ≡ p.cb_fallback
  unfolding called emit with_breaker
  called-apart call none p = refl
  called-apart call (some r) p = refl

  try_provider-apart :
      (call : Call R) (p : Policy) → (try_provider low primary call p).1.cb_fallback ≡ p.cb_fallback
  unfolding try_provider emit with_breaker
  try_provider-apart call p =
      let (opened, b) = is_open call.asked_at (breaker_of primary p) in
      if_rule (λ (out : Result R × Policy). out.1.cb_fallback ≡ p.cb_fallback) opened _ _
        (λ _. refl) (λ _. called-apart call call.result (record p { cb_primary = b }))

  compared-choice :
      (r : R) (a : Option R) (out : Result R × Policy)
      → low r ≡ true
      → Tried a out.0
      → (compared low r out).0 ≡ choice low (some r) a
  unfolding compared choice
  compared-choice r a (ok r', p) l (inl (r'', e, h)) = rw e (rw l h)
  compared-choice r a (ok r', p) l (inr (e, _, h)) = cc h
  compared-choice r a (err x, p) l (inl (r'', e, h)) = cc h
  compared-choice r a (err x, p) l (inr (_, e, _)) = rw e refl

  confident-choice : (r : R) (a : Option R) → low r ≡ false → ok r ≡ choice low (some r) a
  unfolding choice
  confident-choice r none l = refl
  confident-choice r (some r') l = rw l refl

  failed-choice :
      (a : Option R) (out : Result R × Policy)
      → Tried a out.0
      → (both_failed low out).0 ≡ choice low none a
  unfolding both_failed choice
  failed-choice a (ok r, p) (inl (r', e, h)) = rw e h
  failed-choice a (ok r, p) (inr (e, _, h)) = cc h
  failed-choice a (err x, p) (inl (r', e, h)) = cc h
  failed-choice a (err x, p) (inr (_, e, _)) = rw e refl

  fallback-Tried :
      (other : Call R) (p p' : Policy)
      → p'.cb_fallback ≡ p.cb_fallback
      → Tried (answer fallback other p) (try_provider low fallback other p').0
  unfolding breaker_of
  fallback-Tried other p p' same = rw⁻¹ same (try_provider-Tried fallback other p')

  after_primary-choice :
      (other : Call R) (a : Option R) (out : Result R × Policy) (p : Policy)
      → Tried a out.0
      → out.1.cb_fallback ≡ p.cb_fallback
      → (after_primary low (some other) out).0 ≡ choice low a (answer fallback other p)
  unfolding after_primary by_confidence emit
  after_primary-choice other a (ok r, q) p (inl (r', e, h)) same =
      let same_r : r' ≡ r = cc h in
      rw e (
        rw same_r (elim (Bool-cases (low r)) [
          | inl l ↦ rw l (
              compared-choice r (answer fallback other p)
                (try_provider low fallback other (emit ocr_low_confidence_fallback q)) l
                (fallback-Tried other p (emit ocr_low_confidence_fallback q) same))
          | inr l ↦ rw l (confident-choice r (answer fallback other p) l)
        ]))
  after_primary-choice other a (ok r, q) p (inr (e, _, h)) same = cc h
  after_primary-choice other a (err x, q) p (inl (r', e, h)) same = cc h
  after_primary-choice other a (err x, q) p (inr (_, e, _)) same =
      let q' = record (emit ocr_primary_failed_using_fallback q) { fallback_triggered = true } in
      rw e (
        failed-choice (answer fallback other p) (try_provider low fallback other q')
          (fallback-Tried other p q' same))

  -- A page gets the result of the primary provider if its confidence is not low, or if the fallback
  -- gives none; a result of low confidence is replaced by that of the fallback, and so is a failure. If
  -- neither gives a result, the page fails with `OCR_ALL_PROVIDERS_FAILED`. A provider whose breaker
  -- is open gives nothing, like one that raises.
  pub analyze_page-choice :
      (first other : Call R) (p : Policy)
      → (analyze_page low first (some other) p).0
        ≡ choice low (answer primary first p) (answer fallback other p)
  unfolding analyze_page
  analyze_page-choice first other p =
      after_primary-choice other (answer primary first p) (try_provider low primary first p) p
        (try_provider-Tried primary first p) (try_provider-apart first p)
