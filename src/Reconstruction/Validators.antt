-- ===== src/Reconstruction/Validators.antt =====
-- reconstruction/validators.py. `blank` is the test `not s.strip()` of Python. The texts of the issues
-- are left out.
pub mod Flags
pub mod Duplicates
pub mod Ready
pub mod Unique
pub mod Totals
use pages_to_rgb.Prelude.{
  ℕ, String, Bool, not, ◌&&◌, ◌||◌, true, false, Option, none, some, List, [], ◌∷◌, ◌++◌, map,
  find?, any, count, zero, suc, ltb, leb, ◌==◌, ◌+◌, if◌then◌else◌,
}
use pages_to_rgb.Reconstruction.Questions.{
  Completeness, complete, partial, missing, QuestionFlag, number_missing, alternatives_incomplete,
  visual_ambiguity, duplicate_number, sequence_gap, ocr_conflict, Alternatives, Question, has_flag,
}

pub record ValidationIssue : Type 0 where
  pub question_number : ℕ
  pub flag : QuestionFlag

pub record ValidationReport : Type 0 where
  pub issues : List ValidationIssue
  pub ready_count : ℕ
  pub incomplete_count : ℕ
  pub failed_count : ℕ

-- `ValidationReport.total`
abbrev pub total : ValidationReport → ℕ
total report = report.ready_count + report.incomplete_count + report.failed_count

unfoldable pub add_flag : QuestionFlag → Question → Question
add_flag f q = if has_flag f q then q else record q { flags = q.flags ++ f ∷ [] }

-- A question that is complete becomes partial.
abbrev downgraded : Completeness → Completeness
downgraded complete = partial
downgraded partial = partial
downgraded missing = missing

unfoldable pub downgrade : Question → Question
downgrade q = record q { completeness = downgraded q.completeness }

-- `seen_numbers`: a number and the index where it comes first.
pub record Seen : Type 0 where
  pub number : ℕ
  pub index : ℕ

abbrev pub has_number : ℕ → Seen → Bool
has_number n s = s.number == n

-- `q.question_number in seen_numbers`
abbrev pub is_seen : List Seen → ℕ → Bool
is_seen seen n = any (has_number n) seen

unfoldable pub duplicate : Question → Question
duplicate q = record (add_flag duplicate_number q) { completeness = partial }

unfoldable pub noted : ℕ → ℕ → List Seen → List Seen
noted i n seen = if is_seen seen n then seen else seen ++ record { number = n; index = i } ∷ []

-- The first loop, from the index `i` on: the questions, the numbers and the issues.
unfoldable pub mark_duplicates : ℕ → List Seen → List Question → List Question
mark_duplicates i seen [] = []
mark_duplicates i seen (q ∷ qs) =
    (if is_seen seen q.question_number then duplicate q else q)
    ∷ mark_duplicates (i + 1) (noted i q.question_number seen) qs

unfoldable pub seen_numbers : ℕ → List Seen → List Question → List Seen
unfolding noted
seen_numbers i seen [] = seen
seen_numbers i seen (q ∷ qs) = seen_numbers (i + 1) (noted i q.question_number seen) qs

unfoldable pub duplicate_issues : ℕ → List Seen → List Question → List ValidationIssue
duplicate_issues i seen [] = []
duplicate_issues i seen (q ∷ qs) =
    let rest = duplicate_issues (i + 1) (noted i q.question_number seen) qs in
    if is_seen seen q.question_number
    then record { question_number = q.question_number; flag = duplicate_number } ∷ rest
    else rest

-- `sorted` of the keys, which are different numbers.
abbrev insert : ℕ → List ℕ → List ℕ
insert n [] = n ∷ []
insert n (m ∷ ms) = if leb n m then n ∷ m ∷ ms else m ∷ insert n ms

unfoldable pub sorted_numbers : List Seen → List ℕ
sorted_numbers [] = []
sorted_numbers (s ∷ seen) = insert s.number (sorted_numbers seen)

abbrev pub update_at : ℕ → (Question → Question) → List Question → List Question
update_at i f [] = []
update_at zero f (q ∷ qs) = f q ∷ qs
update_at (suc i) f (q ∷ qs) = q ∷ update_at i f qs

unfoldable pub after_gap : Question → Question
after_gap q = downgrade (add_flag sequence_gap q)

abbrev mark_at : Option Seen → List Question → List Question
mark_at none qs = qs
mark_at (some s) qs = update_at s.index after_gap qs

-- The second loop, with the number before.
unfoldable pub mark_gaps : List Seen → ℕ → List ℕ → List Question → List Question
unfolding after_gap
mark_gaps seen prev [] qs = qs
mark_gaps seen prev (num ∷ rest) qs =
    mark_gaps seen num rest
      (if ltb (prev + 1) num then mark_at (find? (has_number num) seen) qs else qs)

unfoldable pub gap_issues : ℕ → List ℕ → List ValidationIssue
gap_issues prev [] = []
gap_issues prev (num ∷ rest) =
    if ltb (prev + 1) num
    then record { question_number = num; flag = sequence_gap } ∷ gap_issues num rest
    else gap_issues num rest

-- The loop starts with the second number.
unfoldable pub check_sequence : List Seen → List ℕ → List Question → List Question
check_sequence seen [] qs = qs
check_sequence seen (num ∷ rest) qs = mark_gaps seen num rest qs

sequence_issues : List ℕ → List ValidationIssue
unfolding gap_issues
sequence_issues [] = []
sequence_issues (num ∷ rest) = gap_issues num rest

unfoldable pub is_blocking : Question → Bool
is_blocking q = has_flag duplicate_number q || has_flag number_missing q

abbrev is_complete : Completeness → Bool
is_complete complete = true
is_complete _ = false

abbrev is_partial : Completeness → Bool
is_partial partial = true
is_partial _ = false

abbrev pub is_missing : Completeness → Bool
is_missing missing = true
is_missing _ = false

unfoldable pub ready : Question → Bool
ready q = is_complete q.completeness && not (is_blocking q)

unfoldable pub incomplete : Question → Bool
incomplete q = is_partial q.completeness || is_blocking q

module _ (blank : String → Bool) where
  -- `len(q.alternatives.non_empty())`
  unfoldable pub non_empty : Alternatives → ℕ
  non_empty alts = count (λ s. not (blank s)) (alts.a ∷ alts.b ∷ alts.c ∷ alts.d ∷ alts.e ∷ [])

  unfoldable pub check_alternatives : Question → Question
  unfolding non_empty
  check_alternatives q =
      if ltb (non_empty q.alternatives) 2 then downgrade (add_flag alternatives_incomplete q) else q

  unfoldable pub check_text : Question → Question
  check_text q =
      if blank q.text then record (add_flag number_missing q) { completeness = missing } else q

  unfoldable pub check_flag : QuestionFlag → Question → Question
  check_flag f q = if has_flag f q then downgrade q else q

  unfoldable pub validate_single : Question → Question
  unfolding check_alternatives check_text check_flag
  validate_single q =
      check_flag ocr_conflict (check_flag visual_ambiguity (check_text (check_alternatives q)))

  single_issues : Question → List ValidationIssue
  single_issues q =
      (if ltb (non_empty q.alternatives) 2
        then record { question_number = q.question_number; flag = alternatives_incomplete } ∷ []
        else [])
      ++ (if blank q.text
          then record { question_number = q.question_number; flag = number_missing } ∷ []
          else [])

  abbrev all_single_issues : List Question → List ValidationIssue
  all_single_issues [] = []
  all_single_issues (q ∷ qs) = single_issues q ++ all_single_issues qs

  -- The questions after the validation, and the report.
  unfoldable pub validated_questions : List Question → List Question
  unfolding validate_single
  validated_questions qs =
      let seen = seen_numbers 0 [] qs in
      map validate_single (check_sequence seen (sorted_numbers seen) (mark_duplicates 0 [] qs))

  unfoldable pub report_of : List ValidationIssue → List Question → ValidationReport
  report_of issues qs = record {
    issues = issues;
    ready_count = count ready qs;
    incomplete_count = count incomplete qs;
    failed_count = count (λ (q : Question). is_missing q.completeness) qs;
  }

  unfoldable pub validate_reconstruction : List Question → List Question × ValidationReport
  unfolding validated_questions report_of sequence_issues single_issues
  validate_reconstruction qs =
      let seen = seen_numbers 0 [] qs in
      (
        validated_questions qs,
        report_of
            (duplicate_issues 0 [] qs
              ++ sequence_issues (sorted_numbers seen)
              ++ all_single_issues
                  (check_sequence seen (sorted_numbers seen) (mark_duplicates 0 [] qs)))
            (validated_questions qs),
      )
