-- ===== src/Reconstruction/Validators/Flags.antt =====
-- reconstruction/validators.py: the flags of a question only grow.
use pages_to_rgb.Prelude.{Bool, ◌≡◌, refl, true, false, List, [], ◌∷◌, ◌++◌, any, if_rule, arith}
use pages_to_rgb.Reconstruction.Questions.{QuestionFlag, Question, has_flag, same_flag}
use pages_to_rgb.Reconstruction.Validators.{add_flag}

pub any-append_false :
    (p : QuestionFlag → Bool) (xs ys : List QuestionFlag)
    → any p (xs ++ ys) ≡ false
    → any p xs ≡ false
any-append_false p [] ys h = refl
any-append_false p (x ∷ xs) ys h = ground (arith, any-append_false p xs ys)

pub any-snoc : (f : QuestionFlag) (xs : List QuestionFlag) → any (same_flag f) (xs ++ f ∷ []) ≡ true
any-snoc f [] = ground arith
any-snoc f (x ∷ xs) = ground (arith, any-snoc f xs)

pub add_flag-has : (f : QuestionFlag) (q : Question) → has_flag f (add_flag f q) ≡ true
unfolding add_flag
add_flag-has f q =
    if_rule (λ (q' : Question). has_flag f q' ≡ true) (has_flag f q) _ _ (λ h. h)
      (λ _. any-snoc f q.flags)
