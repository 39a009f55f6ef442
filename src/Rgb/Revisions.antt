-- ===== src/Rgb/Revisions.antt =====
-- The revisions that rgb/publisher.py gives to the sequences of a session.
use pages_to_rgb.Prelude.{
  ℕ, ◌≡◌, ◌≤◌, ◌<◌, refl, Bool, true, false, Option, none, some, List, [], ◌∷◌, All, arith,
  Bool-cases, inl, inr, subst, sym, ◌⊎◌,
}
use pages_to_rgb.Rgb.Publisher.{latest, later, next_revision, in_session}
use pages_to_rgb.Db.{Sequence}

-- No row that satisfies a test has a revision beyond a bound.
abbrev pub Bounded : (Sequence → Bool) → ℕ → List Sequence → Type 0
Bounded p m rows = All (λ r. (p r ≡ false) ⊎ (r.revision < m)) rows

Bounded-le :
    (p : Sequence → Bool) (m m' : ℕ) (rows : List Sequence)
    → m ≤ m'
    → Bounded p m rows
    → Bounded p m' rows
Bounded-le p m m' [] le h = tt
Bounded-le p m m' (r ∷ rows) le (inl e, h) = (inl e, Bounded-le p m m' rows le h)
Bounded-le p m m' (r ∷ rows) le (inr e, h) =
    (inr (omega (arith, e, le)), Bounded-le p m m' rows le h)

later_bounds :
    (x : Sequence) (o : Option Sequence)
    → (x.revision < next_revision (some (later x o)))
      × (next_revision o ≤ next_revision (some (later x o)))
unfolding later next_revision
later_bounds x none = (omega arith, omega arith)
later_bounds x (some y) = ground arith

latest_here :
    (p : Sequence → Bool) (x : Sequence) (xs : List Sequence)
    → p x ≡ true
    → latest p (x ∷ xs) ≡ some (later x (latest p xs))
unfolding latest
latest_here p x xs e = rw e refl

latest_there :
    (p : Sequence → Bool) (x : Sequence) (xs : List Sequence)
    → p x ≡ false
    → latest p (x ∷ xs) ≡ latest p xs
unfolding latest
latest_there p x xs e = rw e refl

latest-Bounded :
    (p : Sequence → Bool) (rows : List Sequence) → Bounded p (next_revision (latest p rows)) rows
latest-Bounded p [] = tt
latest-Bounded p (x ∷ xs) = elim (Bool-cases (p x)) [
  | inl e ↦
      (let b = later_bounds x (latest p xs) in
        subst (λ o. Bounded p (next_revision o) (x ∷ xs)) (sym (latest_here p x xs e))
          (inr b.0, Bounded-le p _ _ xs b.1 (latest-Bounded p xs)))
  | inr e ↦
      subst (λ o. Bounded p (next_revision o) (x ∷ xs)) (sym (latest_there p x xs e))
        (inl e, latest-Bounded p xs)
]

-- The revision of a new sequence of a session is greater than the revision of each sequence that the
-- session has.
pub next_revision-Bounded :
    (n : ℕ) (rows : List Sequence)
    → Bounded (in_session n) (next_revision (latest (in_session n) rows)) rows
next_revision-Bounded n rows = latest-Bounded (in_session n) rows
