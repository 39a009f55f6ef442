-- ===== src/Prelude/Tables.antt =====
-- Tables with a key: at most one row satisfies the test of the key.
use Prim.Native.Nat.{◌≤◌}
use mathlib.Core.Path.{◌≡◌, refl}
use mathlib.Core.Bool.{Bool, true, false}
use mathlib.Core.List.{List, [], ◌∷◌}
use mathlib.Core.Option.{some}
use native.Mathlib.Omega.{arith}
use pages_to_rgb.Prelude.Lists.{count, find?, update, any, All, find?-test}
use pages_to_rgb.Prelude.Tests.{if_rule, if◌then◌else◌}

module _ {ℓ} {A : Type ℓ} where
  pub any-false-count : (p : A → Bool) (xs : List A) → any p xs ≡ false → count p xs ≡ 0
  any-false-count p [] h = refl
  any-false-count p (x ∷ xs) h = ground (arith, any-false-count p xs)

  pub update-zero_count :
      (p : A → Bool) (f : A → A) (xs : List A) → count p xs ≡ 0 → update p f xs ≡ xs
  update-zero_count p f [] h = refl
  update-zero_count p f (x ∷ xs) h = ground (arith, update-zero_count p f xs)

  pub find?-some-count :
      (r p : A → Bool) (xs : List A) {c : A}
      → ((a : A) → r a ≡ true → p a ≡ true)
      → find? r xs ≡ some c
      → 1 ≤ count p xs
  find?-some-count r p [] h e = cc
  find?-some-count r p (x ∷ xs) {c} h e = ground (arith, h x, find?-some-count r p xs {c = c} h)

  -- A query by the key and more finds the row of the key.
  pub find?-weaken :
      (r p : A → Bool) (xs : List A) {c : A}
      → ((a : A) → r a ≡ true → p a ≡ true)
      → count p xs ≤ 1
      → find? r xs ≡ some c
      → find? p xs ≡ some c
  find?-weaken r p [] h u e = cc
  find?-weaken r p (x ∷ xs) {c} h u e =
      ground (arith, h x, find?-weaken r p xs {c = c} h, find?-some-count r p xs {c = c} h)

  -- The row of a key is replaced: a test that the new row satisfies only if the old one did is not
  -- satisfied more often.
  pub count-replace_le :
      (p q : A → Bool) (xs : List A) {c : A} (c' : A)
      → count p xs ≤ 1
      → find? p xs ≡ some c
      → (q c' ≡ true → q c ≡ true)
      → count q (update p (λ _. c') xs) ≤ count q xs
  count-replace_le p q [] c' u e h = cc
  count-replace_le p q (x ∷ xs) {c} c' u e h =
      ground (arith, update-zero_count p (λ _. c') xs, count-replace_le p q xs {c = c} c')

  -- After the replacement the key finds the new row.
  pub find?-replace :
      (p : A → Bool) (xs : List A) {c : A} (c' : A)
      → find? p xs ≡ some c
      → p c' ≡ true
      → find? p (update p (λ _. c') xs) ≡ some c'
  find?-replace p [] c' e h = cc
  find?-replace p (x ∷ xs) {c} c' e h = ground (arith, find?-replace p xs {c = c} c')

  pub find?-replace_ne :
      (p q : A → Bool) (xs : List A) (c' : A)
      → ((a : A) → p a ≡ true → q a ≡ false)
      → q c' ≡ false
      → find? q (update p (λ _. c') xs) ≡ find? q xs
  find?-replace_ne p q [] c' h n = refl
  find?-replace_ne p q (x ∷ xs) c' h n = ground (arith, h x, find?-replace_ne p q xs c' h n)

  -- The first row of a key is the first that satisfies a narrower test, if it satisfies it at all.
  pub find?-strengthen :
      (p r : A → Bool) (xs : List A) {c : A}
      → ((a : A) → r a ≡ true → p a ≡ true)
      → find? p xs ≡ some c
      → r c ≡ true
      → find? r xs ≡ some c
  find?-strengthen p r [] h e t = cc
  find?-strengthen p r (x ∷ xs) {c} h e t = ground (arith, h x, find?-strengthen p r xs {c = c} h)

  pub All-update {κ} :
      (P : A → Type κ) (p : A → Bool) (f : A → A) (xs : List A)
      → ((a : A) → P a → p a ≡ true → P (f a))
      → All P xs
      → All P (update p f xs)
  All-update P p f [] k h = tt
  All-update P p f (x ∷ xs) k h =
      (if_rule P (p x) (f x) x (k x h.0) (λ _. h.0), All-update P p f xs k h.1)

  -- An update that keeps what a test reads keeps which row the test finds.
  pub find?-update :
      (p q : A → Bool) (f : A → A) (xs : List A) {c : A}
      → ((a : A) → p (f a) ≡ p a)
      → find? p xs ≡ some c
      → find? p (update q f xs) ≡ some (if q c then f c else c)
  find?-update p q f [] h e = cc
  find?-update p q f (x ∷ xs) {c} h e = ground (arith, h x, find?-update p q f xs {c = c} h)

  -- A row that two tests find is replaced under the first, and the second finds the new row.
  pub find?-replace_both :
      (p q : A → Bool) (xs : List A) {c : A} (c' : A)
      → find? p xs ≡ some c
      → find? q xs ≡ some c
      → q c' ≡ true
      → find? q (update p (λ _. c') xs) ≡ some c'
  find?-replace_both p q [] c' e f h = cc
  find?-replace_both p q (x ∷ xs) {c} c' e f h =
      ground (arith, find?-test p (x ∷ xs) {a = c} e, find?-replace_both p q xs {c = c} c')
