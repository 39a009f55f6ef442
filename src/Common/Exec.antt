-- ===== src/Common/Exec.antt =====
-- Service functions: they read and write the database session and may raise (common/errors.py).
-- What was written before a raise is still in the session when the exception leaves the function;
-- the unit of work around the request decides whether it is committed or rolled back.
use pages_to_rgb.Prelude.{ℕ, String}

-- An exception by its reason code and its HTTP status; `value_error` is Python's own, and `raised`
-- is any other exception of Python or of a library.
pub data Error : Type 0 where
  app_error : String → ℕ → Error
  value_error : Error
  raised : Error

pub data Result {ℓ} (A : Type ℓ) : Type ℓ where
  ok : A → Result A
  err : Error → Result A

-- The value of a step that returns nothing.
pub data Done : Type 0 where
  done : Done

abbrev pub Exec {ℓ} : Type ℓ → Type ℓ → Type ℓ
Exec S A = S → Result A × S

module _ {ℓ} {S A B : Type ℓ} where
  abbrev pub continue : Result A → (A → Exec S B) → Exec S B
  continue (ok a) f s = f a s
  continue (err e) f s = (err e, s)

  infixl 10 ◌>>=◌
  abbrev pub ◌>>=◌ : Exec S A → (A → Exec S B) → Exec S B
  ◌>>=◌ m f s = let (r, s') = m s in continue r f s'

-- Steps that read and write nothing, until one raises.
abbrev pub and_then {ℓ κ} : {A : Type ℓ} {B : Type κ} → Result A → (A → Result B) → Result B
and_then (ok a) f = f a
and_then (err e) f = err e

module _ {ℓ} {S A : Type ℓ} where
  abbrev pub settle : S → Result A × S → Result A × S
  settle old (ok a, new) = (ok a, new)
  settle old (err e, new) = (err e, old)

  -- The unit of work around a request: what was written is committed, or rolled back where an
  -- exception leaves it.
  abbrev pub unit_of_work : Exec S A → Exec S A
  unit_of_work f old = settle old (f old)
