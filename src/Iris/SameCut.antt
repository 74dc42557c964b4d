-- ===== src/Iris/SameCut.antt =====
-- The emulated Iris and the orchestrator cut a range of an object into the same pieces.
use symbios.Base.{ℕ, ◌+◌, ◌%◌, List, [], ◌∷◌, ◌==◌, if◌then◌else◌}
use symbios.Objects.{DataDistribution}
use symbios.Iris.{DataDescriptor}

-- A piece: where it is in its object, its size, and where it is in the caller's block.
abbrev pub Cut : Type 0
Cut = List (ℕ × ℕ × ℕ)

-- The pieces that the loops of the emulated Iris read and write.
abbrev pub cut_objects : List DataDescriptor → ℕ → Cut
cut_objects [] from = []
cut_objects (o ∷ os) from = (o.position, o.size, from) ∷ cut_objects os (from + o.size)

abbrev pub cut_distributions : List DataDistribution → Cut
cut_distributions [] = []
cut_distributions (d ∷ ds) =
    (d.source_data.position, d.source_data.data_size, d.destination_data.position)
    ∷ cut_distributions ds

abbrev one_empty : ℕ → Cut
one_empty from = (0, 0, from) ∷ []

-- The empty piece of a range that ends where an object ends.
abbrev pub empty_end : ℕ → ℕ → ℕ → Cut
empty_end max stop from = if stop % max == 0 then (0, 0, from) ∷ [] else []
