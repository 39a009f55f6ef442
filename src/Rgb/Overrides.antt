-- ===== src/Rgb/Overrides.antt =====
-- The overrides of rgb/canonical.py: the items that `resolved_items` makes of a valid payload.
use pages_to_rgb.Prelude.{
  ℕ, ◌≡◌, ◌≢◌, ◌≤◌, ◌<◌, refl, Bool, true, false, Option, none, some, List, [], ◌∷◌, map, ltb, ◌==◌,
  get_elem?, set, length, find?, any, All, zero, suc, arith, Bool-cases, Option-cases, inl, inr, ap,
  sym, subst, length-map, ◌∙◌,
}
use pages_to_rgb.Rgb.Schemas.{
  AnswerLetter, letter_a, letter_b, letter_c, letter_d, letter_e, RgbDefaults, RgbOverride, Palette,
  RgbSequencePayload, validate_payload, validate_rgb, validate_override_rgb, validate_defaults,
  validate_override, every, distinct_indexes,
}
use pages_to_rgb.Rgb.Canonical.{
  ResolvedRgbItem, default_item, overridden, write_item, apply_overrides, resolved_items,
}

-- An item whose numbers fit the fields of the firmware's struct.
pub record IsItem (i : ResolvedRgbItem) : Type 0 where
  pub red : i.r < 256
  pub green : i.g < 256
  pub blue : i.b < 256
  pub dimmed : i.brightness_percent ≤ 100
  pub short_on : i.on_ms ≤ 60000
  pub short_off : i.off_ms ≤ 60000

module _ {A : Type 0} where
  pub get_elem?-some : (xs : List A) (i : ℕ) → i < length xs → (a : A) × (get_elem? xs i ≡ some a)
  get_elem?-some [] i h = absurd (omega (arith, h))
  get_elem?-some (x ∷ xs) zero h = (x, refl)
  get_elem?-some (x ∷ xs) (suc i) h = get_elem?-some xs i (omega arith)

  pub get_elem?-All :
      (P : A → Type 0) (xs : List A) (i : ℕ) {a : A} → All P xs → get_elem? xs i ≡ some a → P a
  get_elem?-All P [] i h e = cc e
  get_elem?-All P (x ∷ xs) zero h e = subst P (cc e) h.0
  get_elem?-All P (x ∷ xs) (suc i) h e = get_elem?-All P xs i h.1 e

  pub set-All : (P : A → Type 0) (xs : List A) (i : ℕ) (v : A) → All P xs → P v → All P (set xs i v)
  set-All P [] i v h k = tt
  set-All P (x ∷ xs) zero v h k = (k, h.1)
  set-All P (x ∷ xs) (suc i) v h k = (h.0, set-All P xs i v h.1 k)

  pub length-set : (xs : List A) (i : ℕ) (v : A) → length (set xs i v) ≡ length xs
  length-set [] i v = refl
  length-set (x ∷ xs) zero v = refl
  length-set (x ∷ xs) (suc i) v = ap suc (length-set xs i v)

  pub get_elem?-set_eq :
      (xs : List A) (i : ℕ) (v : A) {a : A}
      → get_elem? xs i ≡ some a
      → get_elem? (set xs i v) i ≡ some v
  get_elem?-set_eq [] i v h = cc h
  get_elem?-set_eq (x ∷ xs) zero v h = refl
  get_elem?-set_eq (x ∷ xs) (suc i) v h = get_elem?-set_eq xs i v h

  pub get_elem?-set_ne :
      (xs : List A) (i j : ℕ) (v : A) → (i ≡ j → ⊥) → get_elem? (set xs i v) j ≡ get_elem? xs j
  get_elem?-set_ne [] i j v h = refl
  get_elem?-set_ne (x ∷ xs) zero zero v h = absurd (h refl)
  get_elem?-set_ne (x ∷ xs) zero (suc j) v h = refl
  get_elem?-set_ne (x ∷ xs) (suc i) zero v h = refl
  get_elem?-set_ne (x ∷ xs) (suc i) (suc j) v h = get_elem?-set_ne xs i j v (λ e. h (ap suc e))

overridden-IsItem :
    (o : RgbOverride) (i : ResolvedRgbItem)
    → validate_override o ≡ true
    → IsItem i
    → IsItem (overridden o i)
unfolding overridden validate_override validate_override_rgb validate_rgb
overridden-IsItem o i v h = ground arith

default-IsItem :
    (d : RgbDefaults) (c : Palette) (l : AnswerLetter)
    → validate_defaults d ≡ true
    → validate_rgb (c l) ≡ true
    → IsItem (default_item d c l)
unfolding default_item validate_defaults validate_rgb
default-IsItem d c l v w = ground arith

-- All the overrides are written, and the items stay items.
apply_overrides-IsItem :
    (os : List RgbOverride) (items : List ResolvedRgbItem)
    → every validate_override os ≡ true
    → every (λ o. ltb o.index (length items)) os ≡ true
    → All IsItem items
    → (items' : List ResolvedRgbItem) × (apply_overrides os (some items) ≡ some items')
      × All IsItem items'
      × (length items' ≡ length items)
unfolding apply_overrides every write_item
apply_overrides-IsItem [] items v r h = (items, refl, h, refl)
apply_overrides-IsItem (o ∷ os) items v r h =
    let (a, at) = get_elem?-some items o.index (ground arith) in
    let next = set items o.index (overridden o a) in
    let same = length-set items o.index (overridden o a) in
    let (items', e, h', l) =
      apply_overrides-IsItem os next (ground arith) (rw same (ground arith)) (
        set-All IsItem items o.index (overridden o a) h
          (overridden-IsItem o a (ground arith) (get_elem?-All IsItem items o.index h at))) in
    (items', rw at e, h', l ∙ same)

abbrev indexed : ℕ → RgbOverride → Bool
indexed i o = o.index == i

-- What the overrides make of the item at a place: the one override for the place is applied, if
-- there is one.
abbrev pub written : Option RgbOverride → ResolvedRgbItem → ResolvedRgbItem
written none x = x
written (some o) x = overridden o x

abbrev pub override_at : List RgbOverride → ℕ → ResolvedRgbItem → ResolvedRgbItem
override_at os i x = written (find? (indexed i) os) x

no_override :
    (os : List RgbOverride) (i : ℕ) → any (indexed i) os ≡ false → find? (indexed i) os ≡ none
no_override [] i h = refl
no_override (o ∷ os) i h = ground (arith, no_override os i)

out_of_range : (os : List RgbOverride) → apply_overrides os none ≡ none
unfolding apply_overrides
out_of_range [] = refl
out_of_range (o ∷ os) = refl

indexed_of : (i : ℕ) (o : RgbOverride) → indexed i o ≡ true → o.index ≡ i
indexed_of i o h = ground arith

not_indexed : (i : ℕ) (o : RgbOverride) → indexed i o ≡ false → o.index ≢ i
not_indexed i o h = ground arith

distinct_tail :
    (o : RgbOverride) (os : List RgbOverride)
    → distinct_indexes (o ∷ os) ≡ true
    → (any (indexed o.index) os ≡ false) × (distinct_indexes os ≡ true)
unfolding distinct_indexes
distinct_tail o os h = ground arith

apply_overrides-written :
    (os : List RgbOverride) (items : List ResolvedRgbItem) (i : ℕ) {items' : List ResolvedRgbItem}
    {x : ResolvedRgbItem}
    → distinct_indexes os ≡ true
    → apply_overrides os (some items) ≡ some items'
    → get_elem? items i ≡ some x
    → get_elem? items' i ≡ some (override_at os i x)
unfolding apply_overrides write_item
apply_overrides-written [] items i d e at = cc (e, at)
apply_overrides-written (o ∷ os) items i {items'} {x} d e at =
    let (alone, rest) = distinct_tail o os d in
    elim (Option-cases (get_elem? items o.index)) [
      | inl h ↦ cc (rw h at e, out_of_range os)
      | inr (a, h) ↦ elim (Bool-cases (indexed i o)) [
        | inl s ↦
            (let k = indexed_of i o s in
              let same : a ≡ x = cc (h, at, k) in
              let next = set items o.index (overridden o a) in
              let here : get_elem? next i ≡ some (overridden o a) =
                subst (λ j. get_elem? next j ≡ some (overridden o a)) k
                  (get_elem?-set_eq items o.index (overridden o a) h) in
              let later = no_override os i (subst (λ j. any (indexed j) os ≡ false) k alone) in
              rw s (
                apply_overrides-written os next i rest (rw h at e) here
                ∙ ap (λ q. some (written q (overridden o a))) later
                ∙ ap (λ y. some (overridden o y)) same))
        | inr n ↦ rw n (
            apply_overrides-written os (set items o.index (overridden o a)) i rest (rw h at e)
              (get_elem?-set_ne items o.index i (overridden o a) (not_indexed i o n) ∙ at))
      ]
    ]

every-All :
    (d : RgbDefaults) (c : Palette) (letters : List AnswerLetter)
    → validate_defaults d ≡ true
    → ((l : AnswerLetter) → validate_rgb (c l) ≡ true)
    → All IsItem (map (default_item d c) letters)
every-All d c [] v w = tt
every-All d c (l ∷ ls) v w = (default-IsItem d c l v (w l), every-All d c ls v w)

get_elem?-map :
    {A B : Type 0} (f : A → B) (xs : List A) (i : ℕ) {a : A}
    → get_elem? xs i ≡ some a
    → get_elem? (map f xs) i ≡ some (f a)
get_elem?-map f [] i h = cc h
get_elem?-map f (x ∷ xs) zero h = cc h
get_elem?-map f (x ∷ xs) (suc i) h = get_elem?-map f xs i h

valid_distinct :
    (p : RgbSequencePayload) → validate_payload p ≡ true → distinct_indexes p.overrides ≡ true
unfolding validate_payload
valid_distinct p v = ground arith

valid_parts :
    (p : RgbSequencePayload)
    → validate_payload p ≡ true
    → (validate_defaults p.defaults ≡ true)
      × (every validate_override p.overrides ≡ true)
      × (every (λ o. ltb o.index p.item_count) p.overrides ≡ true)
      × (p.item_count ≡ length p.answers)
unfolding validate_payload
valid_parts p v = (ground arith, ground arith, ground arith, ground arith)

palette_valid :
    (p : RgbSequencePayload)
    → validate_payload p ≡ true
    → (l : AnswerLetter) → validate_rgb (p.palette l) ≡ true
unfolding validate_payload
palette_valid p v letter_a = ground arith
palette_valid p v letter_b = ground arith
palette_valid p v letter_c = ground arith
palette_valid p v letter_d = ground arith
palette_valid p v letter_e = ground arith

-- A valid payload has its items: as many as it says, each of them within the limits of the
-- firmware, so that no write of an override is out of range.
pub resolved-IsItem :
    (p : RgbSequencePayload)
    → validate_payload p ≡ true
    → (items : List ResolvedRgbItem) × (resolved_items p ≡ some items)
      × All IsItem items
      × (length items ≡ p.item_count)
unfolding resolved_items
resolved-IsItem p v =
    let (defaults, overrides, indexes, count) = valid_parts p v in
    let items = map (default_item p.defaults p.palette) p.answers in
    let same : p.item_count ≡ length items =
      count ∙ sym (length-map p.answers (default_item p.defaults p.palette)) in
    let (items', e, h, l) =
      apply_overrides-IsItem p.overrides items overrides
        (subst (λ n. every (λ o. ltb o.index n) p.overrides ≡ true) same indexes)
        (every-All p.defaults p.palette p.answers defaults (palette_valid p v)) in
    (items', e, h, l ∙ sym same)

-- The item at a place of a valid payload is the colour of its answer with the defaults, changed by
-- the one override for that place, if there is one; the order of the overrides does not matter.
pub resolved_item_at :
    (p : RgbSequencePayload) (i : ℕ) {items : List ResolvedRgbItem} {l : AnswerLetter}
    → validate_payload p ≡ true
    → resolved_items p ≡ some items
    → get_elem? p.answers i ≡ some l
    → get_elem? items i ≡ some (override_at p.overrides i (default_item p.defaults p.palette l))
unfolding resolved_items
resolved_item_at p i v e at =
    apply_overrides-written p.overrides _ i (valid_distinct p v) e (get_elem?-map _ p.answers i at)
