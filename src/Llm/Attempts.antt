-- ===== src/Llm/Attempts.antt =====
-- When a run of llm/fallback_policy.py calls the fallback, and how often it calls the primary.
use pages_to_rgb.Prelude.{
  ℕ, ◌≡◌, ◌<◌, refl, none, some, zero, suc, ◌+◌, arith, option_rule, subst, ap,
}
use pages_to_rgb.Llm.Fallback.{
  FallbackTrigger, Raised, Attempt, returned, raised, classify_error, Run, call_fallback,
  after_error, after_attempt, attempt_from, run_with_fallback,
}

-- An attempt that failed for a technical reason.
abbrev pub Technical : {A : Type 0} → Attempt A → Type 0
Technical o = (x : Raised) × (t : FallbackTrigger) × (o ≡ raised x) × (classify_error x ≡ some t)

-- The attempts from `k` to before `m` all failed for technical reasons.
pub data Failed {A : Type 0} (primary : ℕ → Attempt A) (k : ℕ) : ℕ → Type 0 where
  no_attempt : Failed primary k k
  one_more : {m : ℕ} → Failed primary k m → Technical (primary m) → Failed primary k (m + 1)

module _ {A : Type 0} (primary : ℕ → Attempt A) (fallback : Attempt A) where
  -- How a run ends: the primary answers after technical failures only; or it fails for another
  -- reason, which is raised as it is; or it has failed technically `limit` times, and the fallback is
  -- called once.
  pub data Ends (limit : ℕ) (r : Run A) : Type 0 where
    answered :
        {m : ℕ} {a : A}
        → Failed primary 0 m
        → m < limit
        → primary m ≡ returned a
        → r ≡ record {
          outcome = returned (a, "anthropic");
          primary_calls = m + 1;
          fallback_calls = 0;
        }
        → Ends limit r
    propagated :
        {m : ℕ} {x : Raised}
        → Failed primary 0 m
        → m < limit
        → primary m ≡ raised x
        → classify_error x ≡ none
        → r ≡ record { outcome = raised x; primary_calls = m + 1; fallback_calls = 0 }
        → Ends limit r
    fell_back : Failed primary 0 limit → r ≡ call_fallback primary fallback limit → Ends limit r

  attempt-Ends :
      (limit k : ℕ) (rest : Run A) (o : Attempt A)
      → k < limit
      → Failed primary 0 k
      → (Technical (primary k) → Ends limit rest)
      → primary k ≡ o
      → Ends limit (after_attempt primary fallback o (k + 1) rest)
  unfolding after_attempt after_error
  attempt-Ends limit k rest (returned a) lt f later h = answered f lt h refl
  attempt-Ends limit k rest (raised x) lt f later h =
      option_rule
        (λ t. classify_error x ≡ t → Ends limit (after_error primary fallback t x (k + 1) rest))
        (classify_error x) (λ _ c. propagated f lt h c refl) (λ t _ c. later (x, t, h, c)) refl

  attempts-Ends :
      (limit n k : ℕ)
      → n + k ≡ limit
      → Failed primary 0 k
      → Ends limit (attempt_from primary fallback n k)
  unfolding attempt_from
  attempts-Ends limit zero k e f =
      let same : k ≡ limit = omega (arith, e) in
      fell_back (subst (Failed primary 0) same f) (ap (call_fallback primary fallback) same)
  attempts-Ends limit (suc n) k e f =
      attempt-Ends limit k (attempt_from primary fallback n (k + 1)) (primary k) (omega (arith, e))
        f (λ t. attempts-Ends limit n (k + 1) (omega (arith, e)) (one_more f t)) refl

  -- The fallback is for technical failures only. A run calls the primary provider at most
  -- `max_retries + 1` times; it returns the first answer of the primary, before which every call
  -- failed for a technical reason; it raises any other error as it is, without a fallback; and it
  -- calls the fallback, once, exactly after `max_retries + 1` technical failures.
  pub fallback_after_failures :
      (max_retries : ℕ) → Ends (max_retries + 1) (run_with_fallback primary fallback max_retries)
  unfolding run_with_fallback
  fallback_after_failures max_retries =
      attempts-Ends (max_retries + 1) (max_retries + 1) 0 (omega arith) no_attempt
