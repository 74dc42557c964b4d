-- ===== src/ShadowLink/Mongo/Documents.antt =====
-- The documents of a stored value: their keys differ, and each is found under its own.
use mathlib.Core.Path.{subst}
use symbios.Base.{
  ℕ, zero, suc, ◌+◌, ◌≤◌, ◌<◌, ◌≡◌, ◌≢◌, ◌∙◌, refl, List, [], ◌∷◌, ◌++◌, arith, length, ℕ_discrete,
}
use symbios.Base.Result.{ok}
use symbios.Base.Text.{Bytes, codes, print_ℕ, Lacks}
use symbios.Base.Text.Decimal.{print_ℕ-injective, print_ℕ_head}
use symbios.Base.Memory.{patch, strcpy_lem, append_cancel}
use symbios.Collection.{Collection, IsCollection, Document, find_field, bytes_eq_self, bytes_eq-ne}
use symbios.ShadowLink.Mongo.{document_of, insert_value, read_docs}
use symbios.ShadowLink.Mongo.Write.{piece_key, piece, put_pieces}

-- Documents with different numbers have different keys.
pub piece_key-injective : (key : Bytes) (i j : ℕ) → piece_key key i ≡ piece_key key j → i ≡ j
piece_key-injective key i j h = print_ℕ-injective i j (tail (append_cancel key _ _ h))
  where
    tail : b'_' ∷ print_ℕ i ≡ b'_' ∷ print_ℕ j → print_ℕ i ≡ print_ℕ j
    tail e = cc

-- No such key is the name of the `_id` field.
pub piece_key-ne-id : (key : Bytes) (i : ℕ) → codes "_id" ≢ piece_key key i
piece_key-ne-id key i h = let (c, s, e, lo, hi) = print_ℕ_head i in go key c s lo hi (rw e at h)
  where
    go :
        (k : Bytes) (c : ℕ) (s : Bytes)
        → b'0' ≤ c
        → c ≤ b'9'
        → codes "_id" ≡ k ++ (b'_' ∷ c ∷ s)
        → ⊥
    go [] c s lo hi h = ground arith
    go (a ∷ []) c s lo hi h = ground arith
    go (a ∷ b ∷ []) c s lo hi h = ground arith
    go (a ∷ b ∷ d ∷ []) c s lo hi h = ground arith
    go (a ∷ b ∷ d ∷ e ∷ k) c s lo hi h = ground arith

-- A key with one document: its value is copied.
pub read_docs-document_of :
    (key value mem : Bytes) (off : ℕ)
    → codes "_id" ≢ key
    → Lacks 0 value
    → off + length value < length mem
    → read_docs key off (document_of key value ∷ []) mem ≡ ok (patch mem off (value ++ 0 ∷ []))
unfolding read_docs find_field
read_docs-document_of key value mem off ne h fits =
    rw (bytes_eq-ne (codes "_id") key ne, bytes_eq_self key, strcpy_lem mem value off h fits)

module _ (c : Collection) (laws : IsCollection c) (max : ℕ) (key buf : Bytes) (len : ℕ) where
  abbrev find : c.State → ℕ → List Document
  find s i = c.find_by_id s (piece_key key i)

  -- No document of the value is there yet.
  abbrev pub IsFresh : c.State → ℕ → Type 0
  IsFresh s i = (j : ℕ) → i ≤ j → find s j ≡ []

  insert-find_ne :
      (s : c.State) (i j : ℕ) (v : Bytes)
      → j ≢ i
      → find (insert_value c (piece_key key i) v s) j ≡ find s j
  unfolding insert_value
  insert-find_ne s i j v h =
      laws.keeps s (document_of (piece_key key i) v) (piece_key key j)
        (λ e. h (piece_key-injective key j i e))

  insert-find_self :
      (s : c.State) (i : ℕ) (v : Bytes)
      → IsFresh s i
      → find (insert_value c (piece_key key i) v s) i ≡ document_of (piece_key key i) v ∷ []
  unfolding insert_value
  insert-find_self s i v fresh =
      laws.finds s (document_of (piece_key key i) v) (fresh i (omega arith))

  insert-IsFresh :
      (s : c.State) (i : ℕ) (v : Bytes)
      → IsFresh s i
      → IsFresh (insert_value c (piece_key key i) v s) (i + 1)
  insert-IsFresh s i v fresh j h = insert-find_ne s i j v (omega arith) ∙ fresh j (omega arith)

  put_pieces-find_below :
      (n i j : ℕ) (s : c.State) → j < i → find (put_pieces c max key buf len n i s) j ≡ find s j
  unfolding put_pieces
  put_pieces-find_below zero i j s h = refl
  put_pieces-find_below (suc n) i j s h =
      put_pieces-find_below n (i + 1) j _ (omega arith) ∙ insert-find_ne s i j _ (omega arith)

  -- Each document of the value is found under its own key.
  pub put_pieces-find :
      (n i j : ℕ) (s : c.State)
      → IsFresh s i
      → i ≤ j
      → j < i + n
      → find (put_pieces c max key buf len n i s) j
        ≡ document_of (piece_key key j) (piece c max key buf len j) ∷ []
  unfolding put_pieces
  put_pieces-find zero i j s fresh lo hi = absurd (omega arith)
  put_pieces-find (suc n) i j s fresh lo hi = elim (ℕ_discrete i j) [
    | yes e ↦
        put_pieces-find_below n (i + 1) j _ (omega arith)
        ∙ subst
            (λ k.
              find (insert_value c (piece_key key i) (piece c max key buf len i) s) k
              ≡ document_of (piece_key key k) (piece c max key buf len k) ∷ [])
            e (insert-find_self s i _ fresh)
    | no ne ↦ put_pieces-find n (i + 1) j _ (insert-IsFresh s i _ fresh) (omega arith) (omega arith)
  ]
