-- ===== src/Reconstruction/Validators/Ready.antt =====
-- reconstruction/validators.py: what a question has that stays complete.
use pages_to_rgb.Prelude.{
  String, Bool, ◌≡◌, ◌≤◌, refl, true, false, List, [], ◌∷◌, map, ltb, All, if_rule, arith, subst,
  sym, ◌∙◌,
}
use pages_to_rgb.Reconstruction.Questions.{
  Completeness, complete, partial, missing, QuestionFlag, alternatives_incomplete, visual_ambiguity,
  ocr_conflict, Question, has_flag,
}
use pages_to_rgb.Reconstruction.Validators.{
  is_complete, downgrade, downgraded, add_flag, non_empty, check_alternatives, check_text,
  check_flag, validate_single, seen_numbers, sorted_numbers, check_sequence, mark_duplicates,
  validated_questions, ready,
}

downgraded_complete : (c : Completeness) → is_complete (downgraded c) ≡ false
downgraded_complete complete = refl
downgraded_complete partial = refl
downgraded_complete missing = refl

module _ (blank : String → Bool) where
  -- What the checks of a single question ask for.
  pub record Sound (q : Question) : Type 0 where
    pub two_alternatives : 2 ≤ non_empty blank q.alternatives
    pub has_text : blank q.text ≡ false
    pub unambiguous : has_flag visual_ambiguity q ≡ false
    pub no_conflict : has_flag ocr_conflict q ≡ false

  Complete : Question → Type 0
  Complete q = is_complete q.completeness ≡ true

  alternatives-Complete :
      (q : Question)
      → Complete (check_alternatives blank q)
      → (check_alternatives blank q ≡ q) × (2 ≤ non_empty blank q.alternatives)
  unfolding Complete check_alternatives downgrade
  alternatives-Complete q =
      if_rule (λ (q' : Question). Complete q' → (q' ≡ q) × (2 ≤ non_empty blank q.alternatives))
        (ltb (non_empty blank q.alternatives) 2) _ _
        (λ _ h. cc (h, downgraded_complete (add_flag alternatives_incomplete q).completeness))
        (λ e h. (refl, ground arith))

  text-Complete :
      (q : Question)
      → Complete (check_text blank q)
      → (check_text blank q ≡ q) × (blank q.text ≡ false)
  unfolding Complete check_text
  text-Complete q =
      if_rule (λ (q' : Question). Complete q' → (q' ≡ q) × (blank q.text ≡ false)) (blank q.text) _
        _ (λ _ h. cc) (λ e h. (refl, e))

  flag-Complete :
      (f : QuestionFlag) (q : Question)
      → Complete (check_flag blank f q)
      → (check_flag blank f q ≡ q) × (has_flag f q ≡ false)
  unfolding Complete check_flag downgrade
  flag-Complete f q =
      if_rule (λ (q' : Question). Complete q' → (q' ≡ q) × (has_flag f q ≡ false)) (has_flag f q) _
        _ (λ _ h. cc (h, downgraded_complete q.completeness)) (λ e h. (refl, e))

  single-Complete :
      (q : Question) → Complete (validate_single blank q) → (validate_single blank q ≡ q) × Sound q
  unfolding validate_single
  single-Complete q h =
      let first = check_alternatives blank q in
      let second = check_text blank first in
      let third = check_flag blank visual_ambiguity second in
      let conflict = flag-Complete ocr_conflict third h in
      let visual = flag-Complete visual_ambiguity second (subst Complete conflict.0 h) in
      let h2 = subst Complete (conflict.0 ∙ visual.0) h in
      let words = text-Complete first h2 in
      let h1 = subst Complete words.0 h2 in
      let alts = alternatives-Complete q h1 in
      (
        conflict.0 ∙ visual.0 ∙ words.0 ∙ alts.0,
        record {
          two_alternatives = alts.1;
          has_text = subst (λ (x : Question). blank x.text ≡ false) alts.0 words.1;
          unambiguous =
              subst (λ (x : Question). has_flag visual_ambiguity x ≡ false) (words.0 ∙ alts.0)
                visual.1;
          no_conflict =
              subst (λ (x : Question). has_flag ocr_conflict x ≡ false)
                (visual.0 ∙ words.0 ∙ alts.0) conflict.1;
        },
      )

  abbrev pub ReadyIsSound : Question → Type 0
  ReadyIsSound q = ready q ≡ true → Sound q

  single-ReadyIsSound : (q : Question) → ReadyIsSound (validate_single blank q)
  unfolding ready Complete
  single-ReadyIsSound q h =
      let same = single-Complete q (ground arith) in subst Sound (sym same.0) same.1

  all_single : (qs : List Question) → All ReadyIsSound (map (validate_single blank) qs)
  all_single [] = tt
  all_single (q ∷ qs) = (single-ReadyIsSound q, all_single qs)

  -- Every question that the report counts as ready has, after the validation, two alternatives or more
  -- that are not blank, a text that is not blank, no flag of a visual ambiguity and no flag of an OCR
  -- conflict.
  pub ready_is_sound : (qs : List Question) → All ReadyIsSound (validated_questions blank qs)
  unfolding validated_questions
  ready_is_sound qs = all_single (
      check_sequence (seen_numbers 0 [] qs) (sorted_numbers (seen_numbers 0 [] qs))
        (mark_duplicates 0 [] qs))
