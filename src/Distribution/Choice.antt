-- ===== src/Distribution/Choice.antt =====
-- The storage that a policy selects is one that is configured.
use native.Mathlib.Nat.{mod-lt}
use symbios.Base.{
  ℕ, ◌+◌, ◌%◌, ◌<◌, ◌≡◌, ◌≢◌, ◌≤◌, ◌⊎◌, inl, inr, false, ltb, lt→ltb, dec_lt, refl, ap, [], ◌∷◌,
  arith, length, ==-false,
}
use symbios.Base.Result.{ok}
use symbios.Objects.{Data, IoClientType, file_io, redis_io, mongo_io}
use symbios.Distribution.{
  Policy, random_policy, round_robin_policy, heuristics_policy, dynamic_programming_policy,
  Solutions, first_of_type, type_for_size, place, modulo_size, distribute,
}

abbrev pub Below : ℕ → Solutions → Type 0
Below n [] = Unit
Below n ((i, _) ∷ rest) = (i < n) × Below n rest

first_of_type-lt :
    (t : IoClientType) (n : ℕ) (l : Solutions) → 0 < n → Below n l → first_of_type t l < n
unfolding first_of_type
first_of_type-lt t n [] pos h = pos
first_of_type-lt t n ((i, u) ∷ rest) pos h = ground (arith, first_of_type-lt t n rest pos h.1)

modulo_size_lem :
    (number : ℕ) (solutions : Solutions)
    → 0 < length solutions
    → modulo_size number solutions ≡ ok (number % length solutions)
unfolding modulo_size
modulo_size_lem number solutions h = rw (==-false (length solutions) 0 (omega arith))

-- The sizes in bytes that go to a storage of each type.
abbrev pub Suits : IoClientType → ℕ → Type 0
Suits mongo_io size = size < 16384
Suits redis_io size = (16384 ≤ size) × (size < 131072)
Suits file_io size = 131072 ≤ size

-- The index of the first storage of a type, and 0 if there is none.
abbrev pub IsFirst : IoClientType → Solutions → ℕ → Type 0
IsFirst t [] i = i ≡ 0
IsFirst t ((j, u) ∷ rest) i = ((u ≡ t) × (i ≡ j)) ⊎ ((u ≢ t) × IsFirst t rest i)

-- The storage that each policy is for.
abbrev pub Selected : Policy → ℕ → ℕ → Solutions → ℕ → ℕ → Type 0
Selected random_policy random next solutions size i = i ≡ random % length solutions
Selected round_robin_policy random next solutions size i = i ≡ next % length solutions
Selected heuristics_policy random next solutions size i =
    (t : IoClientType) × Suits t size × IsFirst t solutions i
Selected dynamic_programming_policy random next solutions size i = ⊥

first_of_type-IsFirst : (t : IoClientType) (l : Solutions) → IsFirst t l (first_of_type t l)
unfolding first_of_type
first_of_type-IsFirst t [] = refl
first_of_type-IsFirst file_io ((i, file_io) ∷ rest) = inl (refl, refl)
first_of_type-IsFirst file_io ((i, redis_io) ∷ rest) =
    inr (λ e. cc, first_of_type-IsFirst file_io rest)
first_of_type-IsFirst file_io ((i, mongo_io) ∷ rest) =
    inr (λ e. cc, first_of_type-IsFirst file_io rest)
first_of_type-IsFirst redis_io ((i, file_io) ∷ rest) =
    inr (λ e. cc, first_of_type-IsFirst redis_io rest)
first_of_type-IsFirst redis_io ((i, redis_io) ∷ rest) = inl (refl, refl)
first_of_type-IsFirst redis_io ((i, mongo_io) ∷ rest) =
    inr (λ e. cc, first_of_type-IsFirst redis_io rest)
first_of_type-IsFirst mongo_io ((i, file_io) ∷ rest) =
    inr (λ e. cc, first_of_type-IsFirst mongo_io rest)
first_of_type-IsFirst mongo_io ((i, redis_io) ∷ rest) =
    inr (λ e. cc, first_of_type-IsFirst mongo_io rest)
first_of_type-IsFirst mongo_io ((i, mongo_io) ∷ rest) = inl (refl, refl)

below_size : (size bound : ℕ) → bound ≤ size → ltb size bound ≡ false
below_size size bound h = ground arith

type_for_size-Suits : (size : ℕ) → Suits (type_for_size size) size
unfolding type_for_size
type_for_size-Suits size = elim (dec_lt size 16384) [
  | yes small ↦ rw (lt→ltb size 16384 small) small
  | no large ↦ elim (dec_lt size 131072) [
    | yes e ↦
        rw (below_size size 16384 (omega (arith, large)), lt→ltb size 131072 e)
          (omega (arith, large), e)
    | no e ↦
        rw (below_size size 16384 (omega (arith, large)), below_size size 131072 (omega (arith, e)))
          (omega (arith, e))
  ]
]

-- If there is a storage, and the indices of the storages are those below their number, then every
-- policy but dynamic programming answers with one distribution: the source and its storage as they
-- are, and the destination, to which only the index is set that the policy is for. That index is
-- below the number of the storages. It is the random number or the next one of the sequence, modulo
-- that number, or the first storage of the type for the size: MongoDB below 16384 bytes, Redis below
-- 131072, and a file from there on, and 0 if there is no storage of that type.
pub distribute-Selected :
    (policy : Policy) (random next : ℕ) (solutions : Solutions) (source destination : Data)
    → policy ≢ dynamic_programming_policy
    → 0 < length solutions
    → Below (length solutions) solutions
    → (i : ℕ) × (distribute policy random next solutions source destination
        ≡ ok (
            record {
              source_data = source;
              destination_data = record destination { storage_index = i };
              storage_index = source.storage_index;
            }
            ∷ []))
      × Selected policy random next solutions destination.data_size i
      × (i < length solutions)
unfolding distribute place
distribute-Selected random_policy random next solutions source destination ne pos below =
    (random % length solutions, rw (modulo_size_lem random solutions pos), refl, mod-lt random pos)
distribute-Selected round_robin_policy random next solutions source destination ne pos below =
    (next % length solutions, rw (modulo_size_lem next solutions pos), refl, mod-lt next pos)
distribute-Selected heuristics_policy random next solutions source destination ne pos below =
    let t = type_for_size destination.data_size in
    (
      first_of_type t solutions,
      refl,
      (t, type_for_size-Suits destination.data_size, first_of_type-IsFirst t solutions),
      first_of_type-lt t (length solutions) solutions pos below,
    )
distribute-Selected dynamic_programming_policy random next solutions source destination ne pos
      below =
    absurd (ne refl)

-- Consecutive values of the sequence visit the storages in turn: after as many requests as there are
-- storages the same one is selected, and two requests that are closer than that, and not the same,
-- differ.
pub round_robin_turn :
    (n k : ℕ) (solutions : Solutions)
    → 0 < k
    → k < length solutions
    → (modulo_size (n + length solutions) solutions ≡ modulo_size n solutions)
      × (modulo_size (n + k) solutions ≢ modulo_size n solutions)
round_robin_turn n k solutions pos h = (
  rw
      (
        modulo_size_lem (n + length solutions) solutions (omega arith),
        modulo_size_lem n solutions (omega arith),
      )
      (ap ok (same n (length solutions) (omega arith))),
  λ e. differ n k (length solutions) pos h (inner e),
)
  where
    same : (n l : ℕ) → 0 < l → (n + l) % l ≡ n % l
    same n l h = grind arith

    differ : (n k l : ℕ) → 0 < k → k < l → (n + k) % l ≢ n % l
    differ n k l p q e = grind arith

    inner :
        modulo_size (n + k) solutions ≡ modulo_size n solutions
        → (n + k) % length solutions ≡ n % length solutions
    inner e = cc (
      e,
      modulo_size_lem (n + k) solutions (omega arith),
      modulo_size_lem n solutions (omega arith),
    )
