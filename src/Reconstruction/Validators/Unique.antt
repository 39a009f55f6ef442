-- ===== src/Reconstruction/Validators/Unique.antt =====
-- reconstruction/validators.py: a number that comes again is never ready twice.
use pages_to_rgb.Prelude.{
  ℕ, zero, suc, String, Bool, ◌≡◌, ◌≤◌, true, ◌&&◌, Option, none, some, List, [], ◌∷◌, map, find?,
  count, ltb, ◌==◌, ◌+◌, if_rule, arith,
}
use pages_to_rgb.Reconstruction.Questions.{
  QuestionFlag, number_missing, sequence_gap, visual_ambiguity, ocr_conflict,
  alternatives_incomplete, Question, has_flag,
}
use pages_to_rgb.Reconstruction.Validators.Duplicates.{first, Grows, add_flag-Grows, marked_once}
use pages_to_rgb.Reconstruction.Validators.{
  Seen, has_number, downgrade, mark_duplicates, update_at, after_gap, mark_at, mark_gaps,
  check_sequence, seen_numbers, sorted_numbers, non_empty, check_alternatives, check_text,
  check_flag, validate_single, validated_questions, ready, is_blocking,
}

count-map_le :
    (p : Question → Bool) (f : Question → Question) (qs : List Question)
    → ((q : Question) → p (f q) ≡ true → p q ≡ true)
    → count p (map f qs) ≤ count p qs
count-map_le p f [] h = omega arith
count-map_le p f (q ∷ qs) h = ground (arith, h q, count-map_le p f qs h)

count-update_at_le :
    (p : Question → Bool) (i : ℕ) (f : Question → Question) (qs : List Question)
    → ((q : Question) → p (f q) ≡ true → p q ≡ true)
    → count p (update_at i f qs) ≤ count p qs
count-update_at_le p i f [] h = omega arith
count-update_at_le p zero f (q ∷ qs) h = ground (arith, h q)
count-update_at_le p (suc i) f (q ∷ qs) h = ground (arith, count-update_at_le p i f qs h)

count-mark_at_le :
    (n : ℕ) (o : Option Seen) (qs : List Question)
    → count (first n) (mark_at o qs) ≤ count (first n) qs
unfolding after_gap downgrade Grows
count-mark_at_le n none qs = omega arith
count-mark_at_le n (some s) qs =
    count-update_at_le (first n) s.index after_gap qs (λ q h. add_flag-Grows sequence_gap q n h)

count-mark_gaps_le :
    (n : ℕ) (seen : List Seen) (prev : ℕ) (nums : List ℕ) (qs : List Question)
    → count (first n) (mark_gaps seen prev nums qs) ≤ count (first n) qs
unfolding mark_gaps
count-mark_gaps_le n seen prev [] qs = omega arith
count-mark_gaps_le n seen prev (num ∷ rest) qs =
    if_rule
      (λ (qs' : List Question). count (first n) (mark_gaps seen num rest qs') ≤ count (first n) qs)
      (ltb (prev + 1) num) _ _
      (λ _. omega (
        arith,
        count-mark_gaps_le n seen num rest (mark_at (find? (has_number num) seen) qs),
        count-mark_at_le n (find? (has_number num) seen) qs,
      ))
      (λ _. count-mark_gaps_le n seen num rest qs)

count-check_sequence_le :
    (n : ℕ) (seen : List Seen) (nums : List ℕ) (qs : List Question)
    → count (first n) (check_sequence seen nums qs) ≤ count (first n) qs
unfolding check_sequence
count-check_sequence_le n seen [] qs = omega arith
count-check_sequence_le n seen (num ∷ rest) qs = count-mark_gaps_le n seen num rest qs

module _ (blank : String → Bool) where
  alternatives-Grows : (q : Question) → Grows q (check_alternatives blank q)
  unfolding Grows check_alternatives downgrade
  alternatives-Grows q n =
      if_rule (λ (q' : Question). first n q' ≡ true → first n q ≡ true)
        (ltb (non_empty blank q.alternatives) 2) _ _
        (λ _. add_flag-Grows alternatives_incomplete q n) (λ _ h. h)

  text-Grows : (q : Question) → Grows q (check_text blank q)
  unfolding Grows check_text
  text-Grows q n =
      if_rule (λ (q' : Question). first n q' ≡ true → first n q ≡ true) (blank q.text) _ _
        (λ _. add_flag-Grows number_missing q n) (λ _ h. h)

  flag-Grows : (f : QuestionFlag) (q : Question) → Grows q (check_flag blank f q)
  unfolding Grows check_flag downgrade
  flag-Grows f q n =
      if_rule (λ (q' : Question). first n q' ≡ true → first n q ≡ true) (has_flag f q) _ _
        (λ _ h. h) (λ _ h. h)

  single-Grows : (q : Question) → Grows q (validate_single blank q)
  unfolding Grows validate_single
  single-Grows q n h =
      let alts = check_alternatives blank q in
      let words = check_text blank alts in
      let visual = check_flag blank visual_ambiguity words in
      alternatives-Grows q n (
        text-Grows alts n
          (flag-Grows visual_ambiguity words n (flag-Grows ocr_conflict visual n h)))

  -- A question with the number `n` that the report counts as ready.
  abbrev pub ready_as : ℕ → Question → Bool
  ready_as n q = q.question_number == n && ready q

  count-ready_le : (n : ℕ) (qs : List Question) → count (ready_as n) qs ≤ count (first n) qs
  unfolding ready is_blocking
  count-ready_le n [] = omega arith
  count-ready_le n (q ∷ qs) = ground (arith, count-ready_le n qs)

  -- Of the questions with one number, at most one is ready after the validation, however often the
  -- number came.
  pub ready_once :
      (n : ℕ) (qs : List Question) → count (ready_as n) (validated_questions blank qs) ≤ 1
  unfolding validated_questions Grows
  ready_once n qs =
      let seen = seen_numbers 0 [] qs in
      let marked = mark_duplicates 0 [] qs in
      let checked = check_sequence seen (sorted_numbers seen) marked in
      omega (
        arith,
        count-ready_le n (map (validate_single blank) checked),
        count-map_le (first n) (validate_single blank) checked (λ q h. single-Grows q n h),
        count-check_sequence_le n seen (sorted_numbers seen) marked,
        marked_once n 0 [] qs,
      )
