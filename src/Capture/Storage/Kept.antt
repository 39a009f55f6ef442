-- ===== src/Capture/Storage/Kept.antt =====
-- capture's storage: what a put leaves of the originals.
use pages_to_rgb.Prelude.{
  ℕ, String, ◌≡◌, refl, Option, none, some, List, find?, find?-append_some, find?-replace_ne, arith,
  ◌∙◌,
}
use pages_to_rgb.Capture.Storage.{
  StoredObject, at_key, Put, stored, refused, overwrite_forbidden, put_object, put_at,
}
use pages_to_rgb.Db.{Bucket, pages_originals, pages_derived}

-- Every original that is there is there afterwards, with the same bytes.
abbrev pub Kept : List StoredObject → List StoredObject → Type 0
Kept old new =
    (key : String) (o : StoredObject)
    → find? (at_key pages_originals key) old ≡ some o
    → find? (at_key pages_originals key) new ≡ some o

-- The same of the outcome of a put.
abbrev pub PutKept : List StoredObject → Put → Type 0
PutKept old (stored new) = Kept old new
PutKept old (refused failure) = Unit

put_at-Kept :
    (o : Option StoredObject) (bucket : Bucket) (key : String) (bytes : List ℕ)
    (objects : List StoredObject)
    → PutKept objects (put_at o bucket key bytes objects)
unfolding put_at
put_at-Kept none bucket key bytes objects =
    λ k o h. find?-append_some (at_key pages_originals k) objects _ {a = o} h
put_at-Kept (some o) pages_originals key bytes objects = tt
put_at-Kept (some o) pages_derived key bytes objects = λ k o' h.
    find?-replace_ne (at_key pages_derived key) (at_key pages_originals k) objects _
      (λ a e. ground arith) refl
    ∙ h

pub put_object-Kept :
    (outage : Option String) (bucket : Bucket) (key : String) (bytes : List ℕ)
    (objects : List StoredObject)
    → PutKept objects (put_object outage bucket key bytes objects)
unfolding put_object
put_object-Kept (some code) bucket key bytes objects = tt
put_object-Kept none bucket key bytes objects =
    put_at-Kept (find? (at_key bucket key) objects) bucket key bytes objects

pub put_object-taken :
    (key : String) (bytes : List ℕ) (objects : List StoredObject) {o : StoredObject}
    → find? (at_key pages_originals key) objects ≡ some o
    → put_object none pages_originals key bytes objects ≡ refused overwrite_forbidden
unfolding put_object put_at
put_object-taken key bytes objects {o} h = rw h refl
