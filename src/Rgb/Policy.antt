-- ===== src/Rgb/Policy.antt =====
-- rgb/policy.py: whether the answers of an exam can be shown as a sequence of colours.
use pages_to_rgb.Prelude.{
  ℕ, String, Bool, true, not, ◌&&◌, ◌||◌, Option, none, some, List, [], ◌∷◌, find?, any, ltb, leb,
  ◌==◌, ◌+◌, min, zero, suc, str_eq, if◌then◌else◌,
}
use pages_to_rgb.Rgb.Schemas.{AnswerLetter, letter_a, letter_b, letter_c, letter_d, letter_e}

pub record AnswerCandidate : Type 0 where
  pub question_number : ℕ
  pub answer : Option String
  pub validated : Bool
  pub question_status : String

unfoldable pub max_sequence_items : ℕ
max_sequence_items = 1000

-- The pair that is returned: the answers, or the reason for a refusal. `key_error` is the exception
-- of a number that `by_number` does not have.
pub data Verdict : Type 0 where
  accepted : List AnswerLetter → Verdict
  refused : String → Verdict
  key_error : Verdict

abbrev pub numbered : ℕ → AnswerCandidate → Bool
numbered n c = c.question_number == n

-- `by_number`, of which each number has one candidate; `none` for a number that comes twice.
unfoldable pub collect : List AnswerCandidate → List AnswerCandidate → Option (List AnswerCandidate)
collect by_number [] = some by_number
collect by_number (c ∷ rest) =
    let collected = collect (c ∷ by_number) rest in
    if any (numbered c.question_number) by_number then none else collected

-- Every number from `k` on, `n` of them, is there.
unfoldable pub has_numbers : List AnswerCandidate → ℕ → ℕ → Bool
has_numbers by_number k zero = true
has_numbers by_number k (suc n) = any (numbered k) by_number && has_numbers by_number (k + 1) n

unfoldable pub in_numbers : ℕ → List AnswerCandidate → Bool
in_numbers n [] = true
in_numbers n (c ∷ rest) = leb 1 c.question_number && leb c.question_number n && in_numbers n rest

unfoldable pub letter_of : Option String → Option AnswerLetter
letter_of none = none
letter_of (some s) =
    if str_eq s "A"
    then some letter_a
    else if str_eq s "B"
    then some letter_b
    else if str_eq s "C"
    then some letter_c
    else if str_eq s "D"
    then some letter_d
    else if str_eq s "E"
    then some letter_e
    else none

unfoldable pub add_answer : Option AnswerLetter → Verdict → Verdict
add_answer none rest = refused "RGB_ANSWER_INVALID_ALTERNATIVE"
add_answer (some l) (accepted ls) = accepted (l ∷ ls)
add_answer (some l) (refused reason) = refused reason
add_answer (some l) key_error = key_error

unfoldable pub check_candidate : Option AnswerCandidate → Verdict → Verdict
check_candidate none rest = key_error
check_candidate (some c) rest =
    if str_eq c.question_status "FAILED"
    then refused "RGB_QUESTION_FAILED"
    else if not c.validated
    then refused "RGB_ANSWER_NOT_VALIDATED"
    else add_answer (letter_of c.answer) rest

-- The loop over the numbers from `k` on, `n` of them.
unfoldable pub answers_from : List AnswerCandidate → ℕ → ℕ → Verdict
answers_from by_number k zero = accepted []
answers_from by_number k (suc n) =
    check_candidate (find? (numbered k) by_number) (answers_from by_number (k + 1) n)

unfoldable pub check_numbers : ℕ → Option (List AnswerCandidate) → Verdict
check_numbers n none = refused "RGB_QUESTION_NUMBER_DUPLICATE"
check_numbers n (some by_number) =
    if not (in_numbers n by_number && has_numbers by_number 1 n)
    then refused "RGB_QUESTION_SEQUENCE_GAP"
    else answers_from by_number 1 n

unfoldable pub validate_complete_answer_set : ℕ → List AnswerCandidate → ℕ → Verdict
unfolding max_sequence_items
validate_complete_answer_set expected candidates max_items =
    if ltb expected 1 || ltb (min max_items max_sequence_items) expected
    then refused "RGB_EXPECTED_QUESTION_COUNT_OUT_OF_RANGE"
    else check_numbers expected (collect [] candidates)
