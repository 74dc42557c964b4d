-- ===== src/Orchestrator/Tiling.antt =====
-- The distributions of a request cover the bytes that it asks for, once and in order.
use symbios.Base.{
  ℕ, zero, suc, ◌+◌, ◌-◌, ◌*◌, ◌/◌, ◌%◌, ◌≤◌, ◌<◌, ◌≡◌, refl, false, List, [], ◌∷◌, arith, ltb,
  get_or, get_elem?, some, Bool-cases, ◌⊎◌, inl, inr, ◌==◌,
}
use symbios.Objects.{no_data, Data, DataDistribution}
use symbios.Orchestrator.Segments.{piece_size, relative_offset, distribution_of, locate_loop}

-- The bytes that a list of distributions moves.
abbrev pub total : List DataDistribution → ℕ
total [] = 0
total (d ∷ ds) = d.source_data.data_size + total ds

-- From segment `i` on, each distribution reads link `i`, through the storage of that link, inside the
-- segment and from where the one before it ended in the object, and places what it reads behind that
-- one, from `destination` on.
abbrev pub Tiles : ℕ → List Data → ℕ → ℕ → ℕ → List DataDistribution → Type 0
Tiles max links i off destination [] = Unit
Tiles max links i off destination (d ∷ ds) =
    (link : Data) × (get_elem? links i ≡ some link)
    × (d.source_data
        ≡ record link { position = d.source_data.position; data_size = d.source_data.data_size })
    × (d.destination_data
        ≡ record link { position = destination; data_size = d.source_data.data_size })
    × (d.storage_index ≡ link.storage_index)
    × (i * max + d.source_data.position ≡ off)
    × (d.source_data.position + d.source_data.data_size ≤ max)
    × Tiles max links (i + 1) (off + d.source_data.data_size)
        (destination + d.source_data.data_size) ds

-- Behind the last segment asked for, the loop ends.
pub loop_ends :
    (max last : ℕ) (links : List Data) (n i start left destination : ℕ)
    → last < i
    → locate_loop max false last links n i start left destination ≡ []
unfolding locate_loop
loop_ends max last links zero i start left destination h = refl
loop_ends max last links (suc n) i start left destination h = ground arith

module _ (max : ℕ) (pos : 0 < max) where
  pub segment_lem :
      (off i : ℕ)
      → i * max ≤ off
      → off < i * max + max
      → (off / max ≡ i) × (i * max + off % max ≡ off)
  segment_lem off i lo hi = grind arith

  pub last-ge : (start left i : ℕ) → i * max ≤ start → i ≤ (start + left) / max
  last-ge start left i lo = grind arith

  pub last-eq :
      (start left i : ℕ) → i * max ≤ start → start + left < i * max + max → (start + left) / max ≡ i
  last-eq start left i lo hi = grind arith

  pub piece_size-cases :
      (relative left : ℕ)
      → ((piece_size max relative left ≡ left) × (left < max - relative))
        ⊎ ((piece_size max relative left ≡ max - relative) × (max - relative ≤ left))
  unfolding piece_size
  piece_size-cases relative left = elim (Bool-cases (ltb left (max - relative))) [
    | inl small ↦ inl (rw small refl, ground arith)
    | inr large ↦ inr (rw large refl, ground arith)
  ]

  -- A round whose segment is asked for.
  pub locate_loop-round :
      (last : ℕ) (links : List Data) (n i start left destination : ℕ)
      → i ≤ last
      → locate_loop max false last links (suc n) i start left destination
        ≡ distribution_of max
            (get_or links i no_data)
            (start % max)
            (piece_size max (start % max) left)
            destination
          ∷ locate_loop max false last links n
              (i + 1)
              (start + piece_size max (start % max) left)
              (left - piece_size max (start % max) left)
              (destination + piece_size max (start % max) left)
  unfolding locate_loop relative_offset
  locate_loop-round last links n i start left destination h = ground arith

  pub not_zero : (n : ℕ) → 0 < n → (n == 0) ≡ false
  not_zero n h = ground arith

  pub first_segment : (p : ℕ) → (p / max * max ≤ p) × (p < p / max * max + max)
  first_segment p = (omega arith, grind arith)
