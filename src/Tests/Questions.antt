-- ===== src/Tests/Questions.antt =====
-- The validation of reconstructed questions on sample questions.
use pages_to_rgb.Prelude.{
  ℕ, String, Bool, ◌≡◌, ◌≤◌, refl, ◌||◌, List, [], ◌∷◌, count, ◌+◌, All, str_eq,
}
use pages_to_rgb.Reconstruction.Questions.{Alternatives, Question, complete}
use pages_to_rgb.Reconstruction.Validators.{
  validate_reconstruction, validated_questions, total, mark_duplicates, seen_numbers,
  sorted_numbers, check_sequence, mark_gaps, add_flag, duplicate, is_blocking, ready, incomplete,
}
use pages_to_rgb.Reconstruction.Validators.Ready.{ReadyIsSound, ready_is_sound}
use pages_to_rgb.Reconstruction.Validators.Unique.{ready_as, ready_once}
use pages_to_rgb.Reconstruction.Validators.Totals.{twice, BlankTwice, total_counts_twice}

abbrev empty_text : String → Bool
empty_text s = str_eq s "" || str_eq s " "

abbrev choices : Alternatives
choices = record { a = "yes"; b = "no"; c = ""; d = ""; e = "" }

abbrev question : ℕ → String → Question
question n text = record {
  question_number = n;
  text = text;
  alternatives = choices;
  completeness = complete;
  flags = [];
}

-- The number 1 comes twice, and the text of the third question is blank.
abbrev exam : List Question
exam = question 1 "What?" ∷ question 1 "Which?" ∷ question 2 " " ∷ question 3 "Why?" ∷ []

total_is_five : total (validate_reconstruction empty_text exam).1 ≡ 5
unfolding validate_reconstruction check_sequence sorted_numbers seen_numbers mark_gaps
    mark_duplicates ready is_blocking duplicate add_flag incomplete
total_is_five = refl

total_counts_twice_example :
    let (final, report) = validate_reconstruction empty_text exam in
    (total report ≡ 4 + count twice final) × All (BlankTwice empty_text) final
total_counts_twice_example = total_counts_twice empty_text exam

ready_once_example : count (ready_as empty_text 1) (validated_questions empty_text exam) ≤ 1
ready_once_example = ready_once empty_text 1 exam

ready_is_sound_example : All (ReadyIsSound empty_text) (validated_questions empty_text exam)
ready_is_sound_example = ready_is_sound empty_text exam
