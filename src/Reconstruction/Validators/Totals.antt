-- ===== src/Reconstruction/Validators/Totals.antt =====
-- reconstruction/validators.py: what the counts of the report add up to.
use pages_to_rgb.Prelude.{
  ℕ, zero, suc, String, Bool, ◌≡◌, refl, true, not, ◌&&◌, ◌||◌, Option, none, some, List, [], ◌∷◌,
  map, length, length-map, find?, count, ltb, ◌+◌, if_rule, arith, All, if◌then◌else◌,
}
use pages_to_rgb.Reconstruction.Questions.{
  Completeness, complete, partial, missing, QuestionFlag, number_missing, visual_ambiguity,
  ocr_conflict, Question, has_flag,
}
use pages_to_rgb.Reconstruction.Validators.Flags.{add_flag-has}
use pages_to_rgb.Reconstruction.Validators.{
  Seen, has_number, noted, downgrade, downgraded, mark_duplicates, update_at, after_gap, mark_at,
  mark_gaps, check_sequence, seen_numbers, sorted_numbers, check_alternatives, check_text,
  check_flag, validate_single, validated_questions, validate_reconstruction, report_of, total,
  ready, incomplete, is_blocking, is_complete, is_partial, is_missing,
}

-- A question that is missing and blocking: it is counted as incomplete and as failed.
abbrev pub twice : Question → Bool
twice q = is_missing q.completeness && is_blocking q

one : Bool → ℕ
one b = if b then 1 else 0

question_counted :
    (c : Completeness) (blocking : Bool)
    → one (is_complete c && not blocking) + one (is_partial c || blocking) + one (is_missing c)
      ≡ 1 + one (is_missing c && blocking)
unfolding one
question_counted complete blocking = ground arith
question_counted partial blocking = ground arith
question_counted missing blocking = ground arith

counts :
    (qs : List Question)
    → count ready qs + count incomplete qs + count (λ (q : Question). is_missing q.completeness) qs
      ≡ length qs + count twice qs
unfolding ready incomplete one
counts [] = refl
counts (q ∷ qs) = omega (arith, counts qs, question_counted q.completeness (is_blocking q))

length-mark_duplicates :
    (i : ℕ) (seen : List Seen) (qs : List Question) → length (mark_duplicates i seen qs) ≡ length qs
unfolding mark_duplicates
length-mark_duplicates i seen [] = refl
length-mark_duplicates i seen (q ∷ qs) =
    omega (arith, length-mark_duplicates (i + 1) (noted i q.question_number seen) qs)

length-update_at :
    (i : ℕ) (f : Question → Question) (qs : List Question) → length (update_at i f qs) ≡ length qs
length-update_at i f [] = refl
length-update_at zero f (q ∷ qs) = refl
length-update_at (suc i) f (q ∷ qs) = omega (arith, length-update_at i f qs)

length-mark_at : (o : Option Seen) (qs : List Question) → length (mark_at o qs) ≡ length qs
length-mark_at none qs = refl
length-mark_at (some s) qs = length-update_at s.index after_gap qs

length-mark_gaps :
    (seen : List Seen) (prev : ℕ) (nums : List ℕ) (qs : List Question)
    → length (mark_gaps seen prev nums qs) ≡ length qs
unfolding mark_gaps
length-mark_gaps seen prev [] qs = refl
length-mark_gaps seen prev (num ∷ rest) qs =
    if_rule (λ (qs' : List Question). length (mark_gaps seen num rest qs') ≡ length qs)
      (ltb (prev + 1) num) _ _
      (λ _. omega (
        arith,
        length-mark_gaps seen num rest (mark_at (find? (has_number num) seen) qs),
        length-mark_at (find? (has_number num) seen) qs,
      ))
      (λ _. length-mark_gaps seen num rest qs)

length-check_sequence :
    (seen : List Seen) (nums : List ℕ) (qs : List Question)
    → length (check_sequence seen nums qs) ≡ length qs
unfolding check_sequence
length-check_sequence seen [] qs = refl
length-check_sequence seen (num ∷ rest) qs = length-mark_gaps seen num rest qs

downgraded-missing : (c : Completeness) → is_missing (downgraded c) ≡ is_missing c
downgraded-missing complete = refl
downgraded-missing partial = refl
downgraded-missing missing = refl

module _ (blank : String → Bool) where
  abbrev pub BlankTwice : Question → Type 0
  BlankTwice q = blank q.text ≡ true → twice q ≡ true

  text-BlankTwice : (q : Question) → BlankTwice (check_text blank q)
  unfolding check_text is_blocking
  text-BlankTwice q =
      if_rule BlankTwice (blank q.text) _ _ (λ e h. ground (arith, add_flag-has number_missing q))
        (λ e h. cc)

  flag-BlankTwice :
      (f : QuestionFlag) (q : Question) → BlankTwice q → BlankTwice (check_flag blank f q)
  unfolding check_flag downgrade is_blocking
  flag-BlankTwice f q held =
      if_rule BlankTwice (has_flag f q) _ _ (λ e h. rw (downgraded-missing q.completeness) (held h))
        (λ e. held)

  all_single : (qs : List Question) → All BlankTwice (map (validate_single blank) qs)
  unfolding validate_single
  all_single [] = tt
  all_single (q ∷ qs) =
      let words = check_text blank (check_alternatives blank q) in
      (
        flag-BlankTwice ocr_conflict (check_flag blank visual_ambiguity words)
            (flag-BlankTwice visual_ambiguity words (text-BlankTwice (check_alternatives blank q))),
        all_single qs,
      )

  -- The total of the report is the number of the questions, plus once more each question that is
  -- missing and has a blocking flag after the validation; every question with a blank text is one of
  -- these.
  pub total_counts_twice :
      (qs : List Question)
      → let (final, report) = validate_reconstruction blank qs in
        (total report ≡ length qs + count twice final) × All BlankTwice final
  unfolding validate_reconstruction validated_questions report_of
  total_counts_twice qs =
      let seen = seen_numbers 0 [] qs in
      let marked = mark_duplicates 0 [] qs in
      let checked = check_sequence seen (sorted_numbers seen) marked in
      (
        omega (
          arith,
          counts (map (validate_single blank) checked),
          length-map checked (validate_single blank),
          length-check_sequence seen (sorted_numbers seen) marked,
          length-mark_duplicates 0 [] qs,
        ),
        all_single checked,
      )
