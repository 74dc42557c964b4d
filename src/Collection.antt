-- ===== src/Collection.antt =====
-- The interface of a MongoDB collection (libmongoc), as far as the program uses it: one insert, and
-- a query by `_id`. The laws are what the documentation says of a collection whose server answers.
use symbios.Base.{
  arith, refl, Bool-cases, inl, inr, ◌≡◌, ◌≢◌, Bool, true, List, [], ◌∷◌, Option, none, some, ◌==◌,
  ◌&&◌, false, if◌then◌else◌,
}
use symbios.Base.Text.{Bytes}

pub record Document : Type 0 where
  pub id : Bytes
  pub fields : List (Bytes × Bytes)

pub record Collection : Type 1 where
  pub State : Type 0
  pub insert_one : State → Document → Bool × State
  pub find_by_id : State → Bytes → List Document

-- `_id` is unique: a document under a new `_id` is accepted, and is then what a query for it finds;
-- queries for another `_id` find what they found before.
pub record IsCollection (c : Collection) : Type 0 where
  pub accepts :
      (s : c.State) (d : Document) → c.find_by_id s d.id ≡ [] → (c.insert_one s d).0 ≡ true
  pub finds :
      (s : c.State) (d : Document)
      → c.find_by_id s d.id ≡ []
      → c.find_by_id (c.insert_one s d).1 d.id ≡ d ∷ []
  pub keeps :
      (s : c.State) (d : Document) (k : Bytes)
      → k ≢ d.id
      → c.find_by_id (c.insert_one s d).1 k ≡ c.find_by_id s k

unfoldable pub bytes_eq : Bytes → Bytes → Bool
bytes_eq [] [] = true
bytes_eq (a ∷ s) (b ∷ t) = (a == b) && bytes_eq s t
bytes_eq _ _ = false

-- `bson_iter_find` and `bson_iter_utf8`: the value of the first field of that name.
unfoldable pub find_field : Bytes → List (Bytes × Bytes) → Option Bytes
unfolding bytes_eq
find_field key [] = none
find_field key ((k, v) ∷ fs) = if bytes_eq k key then some v else find_field key fs

pub bytes_eq_self : (s : Bytes) → bytes_eq s s ≡ true
unfolding bytes_eq
bytes_eq_self [] = refl
bytes_eq_self (a ∷ s) = ground (arith, bytes_eq_self s)

pub bytes_eq_sound : (s t : Bytes) → bytes_eq s t ≡ true → s ≡ t
unfolding bytes_eq
bytes_eq_sound [] [] h = refl
bytes_eq_sound [] (b ∷ t) h = cc
bytes_eq_sound (a ∷ s) [] h = cc
bytes_eq_sound (a ∷ s) (b ∷ t) h = ground (arith, bytes_eq_sound s t)

pub bytes_eq-ne : (s t : Bytes) → s ≢ t → bytes_eq s t ≡ false
bytes_eq-ne s t h = elim (Bool-cases (bytes_eq s t)) [
  | inl e ↦ absurd (h (bytes_eq_sound s t e))
  | inr e ↦ e
]
