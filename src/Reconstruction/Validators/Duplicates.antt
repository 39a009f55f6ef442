-- ===== src/Reconstruction/Validators/Duplicates.antt =====
-- reconstruction/validators.py: the questions that are not marked as duplicates have different numbers.
use pages_to_rgb.Prelude.{
  ℕ, Bool, ◌≡◌, ◌≤◌, refl, true, false, not, ◌&&◌, List, [], ◌∷◌, ◌++◌, count, any, ◌==◌, ◌+◌,
  if_rule, arith, Bool-cases, inl, inr, ==_iff, subst, if◌then◌else◌,
}
use pages_to_rgb.Reconstruction.Questions.{
  QuestionFlag, duplicate_number, Question, has_flag, same_flag,
}
use pages_to_rgb.Reconstruction.Validators.Flags.{any-append_false, add_flag-has}
use pages_to_rgb.Reconstruction.Validators.{
  Seen, has_number, is_seen, noted, add_flag, duplicate, mark_duplicates,
}

-- A question with the number `n` that is not marked as a duplicate.
abbrev pub first : ℕ → Question → Bool
first n q = q.question_number == n && not (has_flag duplicate_number q)

-- What holds of a question with a flag more held before.
unfoldable pub Grows : Question → Question → Type 0
Grows old new = (n : ℕ) → first n new ≡ true → first n old ≡ true

pub add_flag-Grows : (f : QuestionFlag) (q : Question) → Grows q (add_flag f q)
unfolding Grows add_flag
add_flag-Grows f q n =
    if_rule (λ (q' : Question). first n q' ≡ true → first n q ≡ true) (has_flag f q) _ _ (λ _ h. h)
      (λ _ h. ground (arith, any-append_false (same_flag duplicate_number) q.flags (f ∷ [])))

duplicate-not_first : (n : ℕ) (q : Question) → first n (duplicate q) ≡ false
unfolding duplicate
duplicate-not_first n q = ground (arith, add_flag-has duplicate_number q)

any-append_true : (p : Seen → Bool) (xs ys : List Seen) → any p xs ≡ true → any p (xs ++ ys) ≡ true
any-append_true p [] ys h = cc
any-append_true p (x ∷ xs) ys h = ground (arith, any-append_true p xs ys)

any-here :
    (m i : ℕ) (seen : List Seen)
    → any (has_number m) (seen ++ record { number = m; index = i } ∷ []) ≡ true
any-here m i [] = ground arith
any-here m i (s ∷ seen) = ground (arith, any-here m i seen)

noted-seen :
    (n i m : ℕ) (seen : List Seen) → is_seen seen n ≡ true → is_seen (noted i m seen) n ≡ true
unfolding noted
noted-seen n i m seen h =
    if_rule (λ (seen' : List Seen). is_seen seen' n ≡ true) (is_seen seen m) _ _ (λ _. h)
      (λ _. any-append_true (has_number n) seen (record { number = m; index = i } ∷ []) h)

noted-now : (i m : ℕ) (seen : List Seen) → is_seen (noted i m seen) m ≡ true
unfolding noted
noted-now i m seen =
    if_rule (λ (seen' : List Seen). is_seen seen' m ≡ true) (is_seen seen m) _ _ (λ h. h)
      (λ _. any-here m i seen)

-- A number that has been seen is not the number of a question that comes first.
marked-not_first :
    (n : ℕ) (seen : List Seen) (q : Question)
    → is_seen seen n ≡ true
    → first n (if is_seen seen q.question_number then duplicate q else q) ≡ false
marked-not_first n seen q h =
    if_rule (λ (q' : Question). first n q' ≡ false) (is_seen seen q.question_number) _ _
      (λ _. duplicate-not_first n q)
      (λ fresh. elim (Bool-cases (q.question_number == n)) [
        | inl same ↦
            cc (h, subst (λ m. is_seen seen m ≡ false) ((==_iff q.question_number n).0 same) fresh)
        | inr differs ↦ ground arith
      ])

marked-number :
    (n : ℕ) (seen : List Seen) (q : Question)
    → first n (if is_seen seen q.question_number then duplicate q else q) ≡ true
    → q.question_number ≡ n
marked-number n seen q =
    if_rule (λ (q' : Question). first n q' ≡ true → q.question_number ≡ n)
      (is_seen seen q.question_number) _ _ (λ _ h. cc (h, duplicate-not_first n q))
      (λ _ h. ground arith)

marked_seen :
    (n i : ℕ) (seen : List Seen) (qs : List Question)
    → is_seen seen n ≡ true
    → count (first n) (mark_duplicates i seen qs) ≡ 0
unfolding mark_duplicates
marked_seen n i seen [] h = refl
marked_seen n i seen (q ∷ qs) h = rw (marked-not_first n seen q h) (
    omega (
      arith,
      marked_seen n (i + 1) (noted i q.question_number seen) qs
          (noted-seen n i q.question_number seen h),
    ))

-- Where the head is first, its number is seen from then on; where it is not, it is not counted.
pub marked_once :
    (n i : ℕ) (seen : List Seen) (qs : List Question)
    → count (first n) (mark_duplicates i seen qs) ≤ 1
unfolding mark_duplicates
marked_once n i seen [] = omega arith
marked_once n i seen (q ∷ qs) =
    let seen' = noted i q.question_number seen in
    let head : Question = if is_seen seen q.question_number then duplicate q else q in
    elim (Bool-cases (first n head)) [
      | inl is_first ↦ ground (
        arith,
        is_first,
        marked_seen n (i + 1) seen' qs (
            subst (λ m. is_seen seen' m ≡ true) (marked-number n seen q is_first)
              (noted-now i q.question_number seen)),
      )
      | inr never ↦ ground (arith, never, marked_once n (i + 1) seen' qs)
    ]
