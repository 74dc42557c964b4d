-- ===== src/Base/Memory.antt =====
-- Blocks of memory as lists of bytes: a range of one, a write into one, `strcpy`.
use symbios.Base.{
  append_assoc, ℕ, zero, suc, ◌+◌, ◌≤◌, ◌<◌, ◌≡◌, ◌∙◌, refl, ap, List, [], ◌∷◌, ◌++◌, arith, ltb,
  ◌==◌, if◌then◌else◌, length, length-append, take, drop, length-take, length-drop,
}
use symbios.Base.Result.{Result, ok, err, out_of_bounds}
use symbios.Base.Text.{Bytes, Lacks}

-- `n` bytes at `off`.
abbrev pub slice {ℓ} : {A : Type ℓ} → ℕ → ℕ → List A → List A
slice off n xs = take n (drop off xs)

-- What a write of `src` at `off` leaves.
abbrev pub patch {ℓ} : {A : Type ℓ} → List A → ℕ → List A → List A
patch mem off src = take off mem ++ (src ++ drop (off + length src) mem)

-- `memcpy(mem + off, src, length src)`, which must stay inside the block.
unfoldable pub store {ℓ} : {A : Type ℓ} → List A → ℕ → List A → Result (List A)
store mem off src =
    if ltb (length mem) (off + length src) then err out_of_bounds else ok (patch mem off src)

-- The bytes of a C string: those in front of its NUL.
unfoldable pub c_string : Bytes → Bytes
c_string [] = []
c_string (c ∷ s) = let rest = c_string s in if c == 0 then [] else c ∷ rest

unfoldable pub strcpy : Bytes → ℕ → Bytes → Result Bytes
unfolding store c_string
strcpy mem off src = store mem off (c_string src ++ 0 ∷ [])

pub c_string-Lacks : (s : Bytes) → Lacks 0 s → c_string s ≡ s
unfolding c_string
c_string-Lacks [] h = refl
c_string-Lacks (c ∷ s) h = ground (arith, h.0, c_string-Lacks s h.1)

module _ {ℓ} {A : Type ℓ} where
  pub take-append : (xs ys : List A) (n : ℕ) → n ≤ length xs → take n (xs ++ ys) ≡ take n xs
  take-append [] ys zero h = refl
  take-append [] ys (suc n) h = absurd (omega arith)
  take-append (x ∷ xs) ys zero h = refl
  take-append (x ∷ xs) ys (suc n) h = ap (λ (l : List A). x ∷ l) (take-append xs ys n (omega arith))

  pub take-append_add : (xs ys : List A) (n : ℕ) → take (length xs + n) (xs ++ ys) ≡ xs ++ take n ys
  take-append_add [] ys n = ap (λ k. take k ys) (omega arith)
  take-append_add (x ∷ xs) ys n =
      ap (λ k. take k (x ∷ (xs ++ ys))) (suc-out (length xs) n)
      ∙ ap (λ (l : List A). x ∷ l) (take-append_add xs ys n)
    where
      suc-out : (a b : ℕ) → suc a + b ≡ suc (a + b)
      suc-out a b = omega arith

  pub take-length : (xs : List A) (n : ℕ) → length xs ≤ n → take n xs ≡ xs
  take-length [] zero h = refl
  take-length [] (suc n) h = refl
  take-length (x ∷ xs) zero h = absurd (omega arith)
  take-length (x ∷ xs) (suc n) h = ap (λ (l : List A). x ∷ l) (take-length xs n (omega arith))

  pub take-take : (xs : List A) (n m : ℕ) → n ≤ m → take n (take m xs) ≡ take n xs
  take-take [] zero zero h = refl
  take-take [] zero (suc m) h = refl
  take-take [] (suc n) zero h = refl
  take-take [] (suc n) (suc m) h = refl
  take-take (x ∷ xs) zero m h = refl
  take-take (x ∷ xs) (suc n) zero h = absurd (omega arith)
  take-take (x ∷ xs) (suc n) (suc m) h = ap (λ (l : List A). x ∷ l) (take-take xs n m (omega arith))

  -- A prefix and the range behind it are the longer prefix.
  pub take-add : (xs : List A) (n m : ℕ) → take (n + m) xs ≡ take n xs ++ slice n m xs
  take-add xs zero m = ap (λ k. take k xs) (omega arith)
  take-add [] (suc n) zero = take-nil (suc n + 0)
    where
      take-nil : (k : ℕ) → take {A = A} k [] ≡ []
      take-nil zero = refl
      take-nil (suc k) = refl
  take-add [] (suc n) (suc m) = take-nil (suc n + suc m)
    where
      take-nil : (k : ℕ) → take {A = A} k [] ≡ []
      take-nil zero = refl
      take-nil (suc k) = refl
  take-add (x ∷ xs) (suc n) m =
      ap (λ k. take k (x ∷ xs)) (suc-out n m) ∙ ap (λ (l : List A). x ∷ l) (take-add xs n m)
    where
      suc-out : (a b : ℕ) → suc a + b ≡ suc (a + b)
      suc-out a b = omega arith

  pub length-patch :
      (mem src : List A) (off : ℕ)
      → off + length src ≤ length mem
      → length (patch mem off src) ≡ length mem
  length-patch mem src off h = omega (arith, length-append {ℓ}, length-take {ℓ}, length-drop {ℓ})

  -- A write leaves what is in front of it.
  pub take-patch :
      (mem src : List A) (off n : ℕ)
      → off ≤ length mem
      → n ≤ off
      → take n (patch mem off src) ≡ take n mem
  take-patch mem src off n h k =
      take-append (take off mem) _ n (omega (arith, length-take off mem)) ∙ take-take mem n off k

  -- What was written follows what was in front of it.
  pub take-patch_add :
      (mem src : List A) (off n : ℕ)
      → off ≤ length mem
      → n ≤ length src
      → take (off + n) (patch mem off src) ≡ take off mem ++ take n src
  take-patch_add mem src off n h k =
      ap (λ j. take (j + n) (patch mem off src)) (omega (arith, length-take off mem))
      ∙ take-append_add (take off mem) _ n
      ∙ ap (λ (l : List A). take off mem ++ l) (take-append src _ n k)

-- A read of `n` bytes at `off`, which must stay inside the block.
unfoldable pub load {ℓ} : {A : Type ℓ} → List A → ℕ → ℕ → Result (List A)
load mem off n = if ltb (length mem) (off + n) then err out_of_bounds else ok (slice off n mem)

pub Lacks-take : (sep n : ℕ) (s : Bytes) → Lacks sep s → Lacks sep (take n s)
Lacks-take sep zero s h = tt
Lacks-take sep (suc n) [] h = tt
Lacks-take sep (suc n) (c ∷ s) h = (h.0, Lacks-take sep n s h.1)

pub Lacks-drop : (sep n : ℕ) (s : Bytes) → Lacks sep s → Lacks sep (drop n s)
Lacks-drop sep zero s h = h
Lacks-drop sep (suc n) [] h = tt
Lacks-drop sep (suc n) (c ∷ s) h = Lacks-drop sep n s h.1

pub append_cancel {ℓ} : {A : Type ℓ} (xs ys zs : List A) → xs ++ ys ≡ xs ++ zs → ys ≡ zs
append_cancel [] ys zs h = h
append_cancel (x ∷ xs) ys zs h = append_cancel xs ys zs (cc)

pub store_lem {ℓ} :
    {A : Type ℓ} (mem src : List A) (off : ℕ)
    → off + length src ≤ length mem
    → store mem off src ≡ ok (patch mem off src)
unfolding store
store_lem mem src off h = ground arith

pub load_lem {ℓ} :
    {A : Type ℓ} (mem : List A) (off n : ℕ)
    → off + n ≤ length mem
    → load mem off n ≡ ok (slice off n mem)
unfolding load
load_lem mem off n h = ground arith

-- A text with no NUL in it is copied whole, its NUL behind it.
pub strcpy_lem :
    (mem src : Bytes) (off : ℕ)
    → Lacks 0 src
    → off + length src < length mem
    → strcpy mem off src ≡ ok (patch mem off (src ++ 0 ∷ []))
unfolding strcpy
strcpy_lem mem src off h fits =
    rw (c_string-Lacks src h)
      (store_lem mem (src ++ 0 ∷ []) off (omega (arith, length-append src (0 ∷ []))))

-- A range of a list is the same in a longer one.
pub slice-append {ℓ} :
    {A : Type ℓ} (xs ys : List A) (off n : ℕ)
    → off + n ≤ length xs
    → slice off n (xs ++ ys) ≡ slice off n xs
slice-append xs ys zero n h = take-append xs ys n (omega arith)
slice-append [] ys (suc off) n h = absurd (omega arith)
slice-append (x ∷ xs) ys (suc off) n h = slice-append xs ys off n (omega arith)

-- A C string ends at its first NUL.
pub c_string-append : (s rest : Bytes) → Lacks 0 s → c_string (s ++ (0 ∷ rest)) ≡ s
unfolding c_string
c_string-append [] rest h = refl
c_string-append (c ∷ s) rest h = ground (arith, h.0, c_string-append s rest h.1)

-- The text at the start of a block, with its NUL.
pub c_string-patch : (t mem : Bytes) → Lacks 0 t → c_string (patch mem 0 (t ++ 0 ∷ [])) ≡ t
c_string-patch t mem text =
    ap c_string (append_assoc t (0 ∷ []) (drop (0 + length (t ++ 0 ∷ [])) mem))
    ∙ c_string-append t _ text
