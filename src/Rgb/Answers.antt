-- ===== src/Rgb/Answers.antt =====
-- What the verdict of rgb/policy.py on a set of answers says about it.
use pages_to_rgb.Prelude.{
  ℕ, ◌≡◌, ◌≢◌, ◌≤◌, refl, true, false, not, ◌&&◌, ◌||◌, Option, none, some, List, [], ◌∷◌, find?,
  any, ltb, ◌+◌, min, zero, suc, str_eq, length, arith, Bool-cases, inl, inr, ap, subst, ◌⊎◌,
  if_rule, option_rule,
}
use pages_to_rgb.Rgb.Schemas.{AnswerLetter}
use pages_to_rgb.Rgb.Policy.{
  AnswerCandidate, Verdict, accepted, refused, key_error, numbered, collect, has_numbers,
  in_numbers, letter_of, add_answer, check_candidate, answers_from, check_numbers,
  validate_complete_answer_set, max_sequence_items,
}

-- A candidate that stands for a letter.
pub record Answers (c : AnswerCandidate) (l : AnswerLetter) : Type 0 where
  pub solved : str_eq c.question_status "FAILED" ≡ false
  pub checked : c.validated ≡ true
  pub letter : letter_of c.answer ≡ some l

-- The letters are the answers of the candidates for the questions from `k` on, in order.
abbrev pub InOrder : List AnswerCandidate → ℕ → List AnswerLetter → Type 0
InOrder cs k [] = Unit {0}
InOrder cs k (l ∷ ls) =
    ((c : AnswerCandidate) × (find? (numbered k) cs ≡ some c) × Answers c l) × InOrder cs (k + 1) ls

abbrev Explains : List AnswerCandidate → ℕ → ℕ → Verdict → Type 0
Explains cs k n (accepted ls) = (length ls ≡ n) × InOrder cs k ls
Explains cs k n _ = Unit {0}

with_letter :
    (cs : List AnswerCandidate) (k n : ℕ) (c : AnswerCandidate) (l : AnswerLetter) (rest : Verdict)
    → find? (numbered k) cs ≡ some c
    → Answers c l
    → Explains cs (k + 1) n rest
    → Explains cs k (suc n) (add_answer (some l) rest)
unfolding add_answer
with_letter cs k n c l (accepted ls) found a h = (ap suc h.0, ((c, found, a), h.1))
with_letter cs k n c l (refused reason) found a h = tt
with_letter cs k n c l key_error found a h = tt

add_answer-Explains :
    (cs : List AnswerCandidate) (k n : ℕ) (c : AnswerCandidate) (rest : Verdict)
    → find? (numbered k) cs ≡ some c
    → str_eq c.question_status "FAILED" ≡ false
    → c.validated ≡ true
    → Explains cs (k + 1) n rest
    → Explains cs k (suc n) (add_answer (letter_of c.answer) rest)
unfolding add_answer
add_answer-Explains cs k n c rest found solved checked h =
    option_rule (λ o. letter_of c.answer ≡ o → Explains cs k (suc n) (add_answer o rest))
      (letter_of c.answer) (λ _ _. tt)
      (λ l _ e.
        with_letter cs k n c l rest found
          (record { solved = solved; checked = checked; letter = e }) h)
      refl

answers_from-Explains :
    (cs : List AnswerCandidate) (k n : ℕ) → Explains cs k n (answers_from cs k n)
unfolding answers_from check_candidate
answers_from-Explains cs k zero = (refl, tt)
answers_from-Explains cs k (suc n) =
    option_rule
      (λ o.
        find? (numbered k) cs ≡ o
        → Explains cs k (suc n) (check_candidate o (answers_from cs (k + 1) n)))
      (find? (numbered k) cs) (λ _ _. tt)
      (λ c _ found.
        if_rule (Explains cs k (suc n)) (str_eq c.question_status "FAILED") _ _ (λ _. tt)
          (λ solved.
            if_rule (Explains cs k (suc n)) (not c.validated) _ _ (λ _. tt)
              (λ v.
                add_answer-Explains cs k n c (answers_from cs (k + 1) n) found solved (ground arith)
                  (answers_from-Explains cs (k + 1) n))))
      refl

collected :
    (seen cs : List AnswerCandidate) (c : AnswerCandidate) {by_number : List AnswerCandidate}
    → collect seen (c ∷ cs) ≡ some by_number
    → (any (numbered c.question_number) seen ≡ false) × (collect (c ∷ seen) cs ≡ some by_number)
unfolding collect
collected seen cs c h = elim (Bool-cases (any (numbered c.question_number) seen)) [
  | inl e ↦ cc (rw e at h)
  | inr e ↦ (e, rw e at h)
]

numbered_of : (k : ℕ) (c : AnswerCandidate) → numbered k c ≡ true → c.question_number ≡ k
numbered_of k c h = ground arith

-- A number that is already there has no second candidate in what is collected after it.
collect_once :
    (k : ℕ) (seen cs : List AnswerCandidate) {by_number : List AnswerCandidate}
    → any (numbered k) seen ≡ true
    → collect seen cs ≡ some by_number
    → find? (numbered k) cs ≡ none
collect_once k seen [] there h = refl
collect_once k seen (c ∷ cs) {by_number} there h =
    let (fresh, rest) = collected seen cs c h in
    elim (Bool-cases (numbered k c)) [
      | inl e ↦ cc (rw (numbered_of k c e) at fresh, there)
      | inr e ↦ rw e (collect_once k (c ∷ seen) cs (rw (e, there) refl) rest)
    ]

collect-find :
    (k : ℕ) (seen cs : List AnswerCandidate) {by_number : List AnswerCandidate}
    {c : AnswerCandidate}
    → collect seen cs ≡ some by_number
    → find? (numbered k) by_number ≡ some c
    → (find? (numbered k) seen ≡ some c) ⊎ (find? (numbered k) cs ≡ some c)
unfolding collect
collect-find k seen [] h found = inl (cc (h, found))
collect-find k seen (x ∷ cs) {by_number} {c} h found =
    let (fresh, rest) = collected seen cs x h in
    elim (Bool-cases (numbered k x)) [
      | inl e ↦ elim (collect-find k (x ∷ seen) cs rest found) [
        | inl at ↦ inr (rw e (rw e at at))
        | inr later ↦ cc (collect_once k (x ∷ seen) cs (rw e refl) rest, later)
      ]
      | inr e ↦ elim (collect-find k (x ∷ seen) cs rest found) [
        | inl at ↦ inl (rw e at at)
        | inr later ↦ inr (rw e later)
      ]
    ]

collect-InOrder :
    (cs : List AnswerCandidate) (k : ℕ) (ls : List AnswerLetter) {by_number : List AnswerCandidate}
    → collect [] cs ≡ some by_number
    → InOrder by_number k ls
    → InOrder cs k ls
collect-InOrder cs k [] h o = tt
collect-InOrder cs k (l ∷ ls) h ((c, found, a), rest) = elim (collect-find k [] cs h found) [
  | inl e ↦ cc e
  | inr there ↦ ((c, there, a), collect-InOrder cs (k + 1) ls h rest)
]

check_numbers-Explains :
    (n : ℕ) (cs : List AnswerCandidate) (o : Option (List AnswerCandidate))
    → collect [] cs ≡ o
    → {ls : List AnswerLetter} → check_numbers n o ≡ accepted ls
    → (length ls ≡ n) × InOrder cs 1 ls
unfolding check_numbers
check_numbers-Explains n cs none h v = cc v
check_numbers-Explains n cs (some by_number) h {ls} v =
    elim (Bool-cases (in_numbers n by_number && has_numbers by_number 1 n)) [
      | inl e ↦
          (let x =
              subst (Explains by_number 1 n) (rw e at v) (answers_from-Explains by_number 1 n) in
            (x.0, collect-InOrder cs 1 ls h x.1))
      | inr e ↦ cc (rw e at v)
    ]

-- An accepted set of answers has between one item and the limit, one letter for every expected
-- question, and the letter at each place is the answer of the candidate with that question number,
-- which is validated and not failed.
pub accepted-InOrder :
    (expected : ℕ) (cs : List AnswerCandidate) (max_items : ℕ) {ls : List AnswerLetter}
    → validate_complete_answer_set expected cs max_items ≡ accepted ls
    → (1 ≤ expected)
      × (expected ≤ min max_items max_sequence_items)
      × (length ls ≡ expected)
      × InOrder cs 1 ls
unfolding validate_complete_answer_set
accepted-InOrder expected cs max_items v =
    elim (Bool-cases (ltb expected 1 || ltb (min max_items max_sequence_items) expected)) [
      | inl e ↦ cc (rw e at v)
      | inr e ↦
          (let x = check_numbers-Explains expected cs (collect [] cs) refl (rw e at v) in
            (ground arith, ground arith, x.0, x.1))
    ]

absent_any :
    (k : ℕ) (cs : List AnswerCandidate) → find? (numbered k) cs ≡ none → any (numbered k) cs ≡ false
absent_any k [] h = refl
absent_any k (c ∷ cs) h = ground (arith, absent_any k cs)

add_answer_total :
    (o : Option AnswerLetter) (rest : Verdict) → rest ≢ key_error → add_answer o rest ≢ key_error
unfolding add_answer
add_answer_total none rest h k = cc k
add_answer_total (some l) (accepted ls) h k = cc k
add_answer_total (some l) (refused reason) h k = cc k
add_answer_total (some l) key_error h k = h refl

answers_from_total :
    (cs : List AnswerCandidate) (k n : ℕ)
    → has_numbers cs k n ≡ true
    → answers_from cs k n ≢ key_error
unfolding answers_from has_numbers check_candidate
answers_from_total cs k zero h = λ e. cc e
answers_from_total cs k (suc n) h =
    option_rule
      (λ o. find? (numbered k) cs ≡ o → check_candidate o (answers_from cs (k + 1) n) ≢ key_error)
      (find? (numbered k) cs) (λ _ absent. absurd (cc (absent_any k cs absent, h)))
      (λ c _ _.
        if_rule (λ v. v ≢ key_error) (str_eq c.question_status "FAILED") _ _ (λ _ e. cc e)
          (λ _.
            if_rule (λ v. v ≢ key_error) (not c.validated) _ _ (λ _ e. cc e)
              (λ _.
                add_answer_total (letter_of c.answer) (answers_from cs (k + 1) n)
                  (answers_from_total cs (k + 1) n (ground arith)))))
      refl

check_numbers_total : (n : ℕ) (o : Option (List AnswerCandidate)) → check_numbers n o ≢ key_error
unfolding check_numbers
check_numbers_total n none = λ e. cc e
check_numbers_total n (some by_number) =
    if_rule (λ v. v ≢ key_error) (not (in_numbers n by_number && has_numbers by_number 1 n)) _ _
      (λ _ e. cc e) (λ h. answers_from_total by_number 1 n (ground arith))

-- Every set of candidates gets a verdict: the lookup of a number never fails.
pub verdict_total :
    (expected : ℕ) (cs : List AnswerCandidate) (max_items : ℕ)
    → validate_complete_answer_set expected cs max_items ≢ key_error
unfolding validate_complete_answer_set
verdict_total expected cs max_items =
    if_rule (λ v. v ≢ key_error) (ltb expected 1 || ltb (min max_items max_sequence_items) expected)
      _ _ (λ _ e. cc e) (λ _. check_numbers_total expected (collect [] cs))
