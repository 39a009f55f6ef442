-- ===== src/Common/Value.antt =====
-- JSON values as the program keeps them: the payload of an audit event, of a device event and of a
-- command. A Python `dict` is the list of its members. Two of them are equal if they have as many
-- members and the members of the one are members of the other; `True` equals 1, as in Python.
use pages_to_rgb.Prelude.{
  ℕ, String, ◌≡◌, refl, Bool, true, false, not, zero, suc, ◌&&◌, ◌||◌, Option, none, some, arith,
  ◌==◌, ==_refl, str_eq, eq_refl, if◌then◌else◌,
}

mutual
  pub data Value : Type 0 where
    null : Value
    flag : Bool → Value
    num : ℕ → Value
    -- A number that is no natural number, by its text.
    decimal : String → Value
    text : String → Value
    arr : Items → Value
    obj : Fields → Value

  pub data Fields : Type 0 where
    end : Fields
    field : String → Value → Fields → Fields

  pub data Items : Type 0 where
    nil : Items
    cons : Value → Items → Items

same_flag : Bool → Bool → Bool
same_flag true true = true
same_flag false false = true
same_flag _ _ = false

flag_number : Bool → ℕ
flag_number true = 1
flag_number false = 0

-- `len(d)`
size : Fields → ℕ
size end = 0
size (field k v r) = suc (size r)

-- A member with the key whose value satisfies a test.
has_member : String → (Value → Bool) → Fields → Bool
has_member k p end = false
has_member k p (field j w s) = (str_eq k j && p w) || has_member k p s

unfoldable mutual
  unfolding same_flag flag_number size has_member

  pub same_value : Value → Value → Bool
  same_value null null = true
  same_value (flag a) (flag b) = same_flag a b
  same_value (flag a) (num b) = flag_number a == b
  same_value (num a) (flag b) = a == flag_number b
  same_value (num a) (num b) = a == b
  same_value (decimal a) (decimal b) = str_eq a b
  same_value (text a) (text b) = str_eq a b
  same_value (arr a) (arr b) = same_items a b
  same_value (obj a) (obj b) = (size a == size b) && within a b
  same_value _ _ = false

  pub same_items : Items → Items → Bool
  same_items nil nil = true
  same_items (cons a r) (cons b s) = same_value a b && same_items r s
  same_items _ _ = false

  within : Fields → Fields → Bool
  within end b = true
  within (field k v r) b = has_member k (same_value v) b && within r b

-- Equality of two dictionaries, in whatever order their members stand.
unfoldable pub same_fields : Fields → Fields → Bool
unfolding size within
same_fields a b = (size a == size b) && within a b

and_more :
    (a a' b b' : Bool)
    → (a ≡ true → a' ≡ true)
    → (b ≡ true → b' ≡ true)
    → (a && b) ≡ true
    → (a' && b') ≡ true
and_more a a' b b' f g h = ground arith

or_right : (a b : Bool) → b ≡ true → (a || b) ≡ true
or_right a b h = ground arith

-- A dictionary with a member more has what it had.
within_more :
    (j : String) (w : Value) (a b : Fields) → within a b ≡ true → within a (field j w b) ≡ true
unfolding within has_member
within_more j w end b h = refl
within_more j w (field k v r) b h =
    and_more (has_member k (same_value v) b)
      ((str_eq k j && same_value v w) || has_member k (same_value v) b) (within r b)
      (within r (field j w b))
      (or_right (str_eq k j && same_value v w) (has_member k (same_value v) b))
      (within_more j w r b) h

mutual
  unfolding same_value same_items same_flag within has_member size

  same_value_self : (v : Value) → same_value v v ≡ true
  same_value_self null = refl
  same_value_self (flag true) = refl
  same_value_self (flag false) = refl
  same_value_self (num n) = ==_refl n
  same_value_self (decimal s) = eq_refl s
  same_value_self (text s) = eq_refl s
  same_value_self (arr xs) = same_items_self xs
  same_value_self (obj fs) = ground (arith, ==_refl (size fs), within_self fs)

  same_items_self : (xs : Items) → same_items xs xs ≡ true
  same_items_self nil = refl
  same_items_self (cons x xs) = ground (arith, same_value_self x, same_items_self xs)

  within_self : (fs : Fields) → within fs fs ≡ true
  within_self end = refl
  within_self (field k v r) =
      ground (arith, eq_refl k, same_value_self v, within_more k v r r (within_self r))

-- A payload equals itself.
pub same_fields_refl : (fs : Fields) → same_fields fs fs ≡ true
unfolding same_fields size within has_member
same_fields_refl fs = ground (arith, ==_refl (size fs), within_self fs)

-- `bool(v)`
unfoldable pub truthy : Value → Bool
truthy null = false
truthy (flag b) = b
truthy (num zero) = false
truthy (num (suc n)) = true
truthy (decimal s) = true
truthy (text s) = not (str_eq s "")
truthy (arr nil) = false
truthy (arr (cons v r)) = true
truthy (obj end) = false
truthy (obj (field k v r)) = true

-- `d.get(k)`
unfoldable pub get : String → Fields → Option Value
get k end = none
get k (field j v r) = if str_eq j k then some v else get k r

-- `d[k] = v`
unfoldable pub put : String → Value → Fields → Fields
put k v end = field k v end
put k v (field j w r) = if str_eq j k then field k v r else field j w (put k v r)

-- `{**a, **b}`
unfoldable pub merge : Fields → Fields → Fields
unfolding put
merge a end = a
merge a (field k v r) = merge (put k v a) r
