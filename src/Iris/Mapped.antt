-- ===== src/Iris/Mapped.antt =====
-- The loop of `DataMapper::map` ends, and its objects are the pieces of the range.
use native.Mathlib.Nat.{mod-lt}
use symbios.Base.{
  ℕ, zero, suc, ◌+◌, ◌-◌, ◌/◌, ◌%◌, ◌^◌, ◌≤◌, ◌<◌, ◌≡◌, refl, false, ◌⊎◌, inl, inr, List, [], ◌∷◌,
  ◌++◌, arith, ltb, ◌==◌, Bool-cases,
}
use symbios.Base.Result.{Result, ok}
use symbios.Base.Text.{Bytes, print_ℕ}
use symbios.Iris.{DataDescriptor, DataMapper, object_at, map_loop, map_objects}

-- The objects of `left` bytes from `pos` on, in turn: each has the name of the object that the byte
-- at `pos` is in and its place there, stays inside it, and ends with it or with the range.
abbrev pub Pieces : ℕ → Bytes → ℕ → ℕ → List DataDescriptor → Type 0
Pieces max id left pos [] = left ≡ 0
Pieces max id left pos (o ∷ os) =
    (o.id ≡ id ++ print_ℕ (pos / max))
    × (o.position ≡ pos % max)
    × (o.chunk_index ≡ pos / max % 2 ^ 32)
    × (0 < o.size)
    × (o.size ≤ left)
    × (o.position + o.size ≤ max)
    × ((o.size ≡ left) ⊎ (o.position + o.size ≡ max))
    × Pieces max id (left - o.size) (pos + o.size) os

abbrev pub Mapped : ℕ → Bytes → ℕ → ℕ → Result (List DataDescriptor) → Type 0
Mapped max id left pos r = (os : List DataDescriptor) × (r ≡ ok os) × Pieces max id left pos os

module _ (max : ℕ) (some : 0 < max) (id : Bytes) where
  object_at-size :
      (left pos : ℕ)
      → 0 < left
      → (0 < (object_at max id left pos).size)
        × ((object_at max id left pos).size ≤ left)
        × (pos % max + (object_at max id left pos).size ≤ max)
        × (((object_at max id left pos).size ≡ left)
            ⊎ (pos % max + (object_at max id left pos).size ≡ max))
  unfolding object_at
  object_at-size left pos h = elim (Bool-cases (ltb (max - pos % max) left)) [
    | inl e ↦ rw e (
      ground (arith, mod-lt pos some),
      ground arith,
      ground (arith, mod-lt pos some),
      inr (ground (arith, mod-lt pos some)),
    )
    | inr e ↦ rw e (h, ground arith, ground (arith, mod-lt pos some), inl refl)
  ]

  map_loop-step :
      (fuel left pos : ℕ)
      → 0 < left
      → Mapped max id
          (left - (object_at max id left pos).size)
          (pos + (object_at max id left pos).size)
          (map_loop fuel max id
            (left - (object_at max id left pos).size)
            (pos + (object_at max id left pos).size))
      → Mapped max id left pos (map_loop (suc fuel) max id left pos)
  unfolding map_loop object_at
  map_loop-step fuel left pos h (os, e, pieces) =
      let sizes = object_at-size left pos h in
      (
        object_at max id left pos ∷ os,
        rw (not_zero left h, not_zero max some, e) refl,
        (refl, refl, refl, sizes.0, sizes.1, sizes.2, sizes.3, pieces),
      )
    where
      not_zero : (n : ℕ) → 0 < n → (n == 0) ≡ false
      not_zero n k = ground arith

  map_loop-Mapped :
      (fuel left pos : ℕ) → left ≤ fuel → Mapped max id left pos (map_loop fuel max id left pos)
  unfolding map_loop
  map_loop-Mapped zero left pos h = ([], ground arith, omega arith)
  map_loop-Mapped (suc fuel) zero pos h = ([], refl, refl)
  map_loop-Mapped (suc fuel) (suc left) pos h =
      map_loop-step fuel (suc left) pos (omega arith)
        (map_loop-Mapped fuel _ _ (omega (arith, (object_at-size (suc left) pos (omega arith)).0)))

-- With objects of at least one byte the loop ends, with as many rounds as the range has bytes as
-- fuel, and gives the pieces of the range: `Pieces`.
pub map_objects-Mapped :
    (mapper : DataMapper) (src : DataDescriptor)
    → 0 < mapper.max_obj_size
    → Mapped mapper.max_obj_size src.id src.size src.position (map_objects mapper src)
unfolding map_objects
map_objects-Mapped mapper src some =
    map_loop-Mapped mapper.max_obj_size some src.id src.size src.size src.position (omega arith)
