-- ===== src/Rgb/Packing.antt =====
-- The bytes of rgb/canonical.py: 13 of them for each item, from which the firmware can read the item.
use pages_to_rgb.Prelude.{
  ℕ, ◌≡◌, ◌<◌, refl, true, some, List, [], ◌∷◌, ◌++◌, ltb, ◌==◌, ◌+◌, ◌*◌, ◌/◌, ◌%◌, length, All,
  arith, ap, ◌∙◌, if◌then◌else◌,
}
use pages_to_rgb.Rgb.Schemas.{
  AnswerLetter, letter_a, letter_b, letter_c, letter_d, letter_e, RgbSequencePayload,
  validate_payload,
}
use pages_to_rgb.Rgb.Canonical.{
  ResolvedRgbItem, resolved_items, letter_code, pack_byte, pack_int, pack_item, pack_items,
  pack_resolved, canonical_items_bytes,
}
use pages_to_rgb.Rgb.Overrides.{IsItem, resolved-IsItem}

letter_from : ℕ → AnswerLetter
letter_from n =
    if n == 65
    then letter_a
    else if n == 66
    then letter_b
    else if n == 67
    then letter_c
    else if n == 68
    then letter_d
    else letter_e

int_from : ℕ → ℕ → ℕ → ℕ → ℕ
int_from a b c d = a + b * 256 + c * 65536 + d * 16777216

-- What a reader of the struct makes of the bytes; it stops where fewer than 13 are left.
unfoldable pub unpack : List ℕ → List ResolvedRgbItem
unfolding letter_from int_from
unpack (l ∷ r ∷ g ∷ b ∷ p ∷ i ∷ j ∷ k ∷ m ∷ x ∷ y ∷ z ∷ w ∷ rest) =
    record {
      answer = letter_from l;
      r = r;
      g = g;
      b = b;
      brightness_percent = p;
      on_ms = int_from i j k m;
      off_ms = int_from x y z w;
    }
    ∷ unpack rest
unpack _ = []

item_bytes : ResolvedRgbItem → List ℕ
item_bytes i =
    letter_code i.answer
    ∷ i.r
    ∷ i.g
    ∷ i.b
    ∷ i.brightness_percent
    ∷ i.on_ms % 256
    ∷ i.on_ms / 256 % 256
    ∷ i.on_ms / 65536 % 256
    ∷ i.on_ms / 16777216
    ∷ i.off_ms % 256
    ∷ i.off_ms / 256 % 256
    ∷ i.off_ms / 65536 % 256
    ∷ i.off_ms / 16777216
    ∷ []

letter_fits : (l : AnswerLetter) → ltb (letter_code l) 256 ≡ true
unfolding letter_code
letter_fits letter_a = refl
letter_fits letter_b = refl
letter_fits letter_c = refl
letter_fits letter_d = refl
letter_fits letter_e = refl

fits : (n m : ℕ) → n < m → ltb n m ≡ true
fits n m h = ground arith

pack_item_lem : (i : ResolvedRgbItem) → IsItem i → pack_item i ≡ some (item_bytes i)
unfolding pack_item pack_byte pack_int item_bytes
pack_item_lem i h = rw (letter_fits i.answer) (
    rw (fits i.r 256 h.red) (
      rw (fits i.g 256 h.green) (
        rw (fits i.b 256 h.blue) (
          rw (fits i.brightness_percent 256 (omega (arith, h.dimmed))) (
            rw (fits i.on_ms 4294967296 (omega (arith, h.short_on)))
              (rw (fits i.off_ms 4294967296 (omega (arith, h.short_off))) refl))))))

letter_back : (l : AnswerLetter) → letter_from (letter_code l) ≡ l
unfolding letter_code letter_from
letter_back letter_a = refl
letter_back letter_b = refl
letter_back letter_c = refl
letter_back letter_d = refl
letter_back letter_e = refl

int_back : (n : ℕ) → int_from (n % 256) (n / 256 % 256) (n / 65536 % 256) (n / 16777216) ≡ n
unfolding int_from
int_back n = omega arith

-- Reading the bytes of an item gives the item back, and leaves what follows them.
unpack_item :
    (i : ResolvedRgbItem) (rest : List ℕ) → unpack (item_bytes i ++ rest) ≡ i ∷ unpack rest
unfolding unpack item_bytes
unpack_item i rest =
    ap
      (λ (x : AnswerLetter × ℕ × ℕ).
        record i { answer = x.0; on_ms = x.1; off_ms = x.2 } ∷ unpack rest)
      (cc (letter_back i.answer, int_back i.on_ms, int_back i.off_ms))

unpack_end : unpack [] ≡ []
unfolding unpack
unpack_end = refl

item_length :
    (i : ResolvedRgbItem) (bytes : List ℕ) → length (item_bytes i ++ bytes) ≡ 13 + length bytes
unfolding item_bytes
item_length i bytes = omega arith

pack_items_lem :
    (is : List ResolvedRgbItem)
    → All IsItem is
    → (bytes : List ℕ) × (pack_items is ≡ some bytes)
      × (length bytes ≡ 13 * length is)
      × (unpack bytes ≡ is)
unfolding pack_items
pack_items_lem [] h = ([], refl, refl, unpack_end)
pack_items_lem (i ∷ is) h =
    let (bytes, e, l, u) = pack_items_lem is h.1 in
    (
      item_bytes i ++ bytes,
      rw (pack_item_lem i h.0) (rw e refl),
      omega (arith, item_length i bytes, l),
      unpack_item i bytes ∙ ap (λ xs. i ∷ xs) u,
    )

-- A valid payload has its canonical bytes: 13 for each of its items, and reading them gives exactly
-- the items that are to be played.
pub canonical_bytes_read_back :
    (p : RgbSequencePayload)
    → validate_payload p ≡ true
    → (items : List ResolvedRgbItem) × (bytes : List ℕ) × (resolved_items p ≡ some items)
      × (canonical_items_bytes p ≡ some bytes)
      × (length bytes ≡ 13 * p.item_count)
      × (unpack bytes ≡ items)
unfolding canonical_items_bytes pack_resolved
canonical_bytes_read_back p v =
    let (items, e, h, n) = resolved-IsItem p v in
    let (bytes, k, l, u) = pack_items_lem items h in
    (items, bytes, e, rw e k, l ∙ ap (λ c. 13 * c) n, u)
