-- ===== src/Orchestrator/Segments.antt =====
-- The second half of `MetadataOrchestrator::Locate`: the part of each stored segment that a request
-- asks for. A segment holds `max` bytes (MAX_OBJ_SIZE).
use symbios.Base.{
  ℕ, zero, suc, ◌+◌, ◌-◌, ◌/◌, ◌%◌, Bool, ◌||◌, List, [], ◌∷◌, ltb, leb, ◌==◌, if◌then◌else◌,
  length, get_or,
}
use symbios.Base.Int.{ℤ, pos, negsuc}
use symbios.Base.Result.{Result, ok, err, out_of_bounds, ◌>>=◌}
use symbios.Base.Memory.{store}
use symbios.Objects.{Data, DataDistribution, Metadata, no_data}

-- `Data links[link_size]`, filled from the map: a key that is no index writes outside the array.
unfoldable pub fill_links : List (ℤ × Data) → List Data → Result (List Data)
unfolding store
fill_links [] links = ok links
fill_links ((pos i, d) ∷ rest) links = store links i (d ∷ []) >>= fill_links rest
fill_links ((negsuc i, d) ∷ rest) links = err out_of_bounds

unfoldable pub repeat_data : ℕ → List Data
repeat_data zero = []
repeat_data (suc n) = no_data ∷ repeat_data n

unfoldable pub links_of : Metadata → Result (List Data)
unfolding fill_links repeat_data
links_of m = fill_links m.links (repeat_data (length m.links))

module _ (max : ℕ) where
  -- `MAX_OBJ_SIZE - relative_offset > size_left ? size_left : MAX_OBJ_SIZE - relative_offset`
  unfoldable pub piece_size : ℕ → ℕ → ℕ
  piece_size relative left = if ltb left (max - relative) then left else max - relative

  unfoldable pub relative_offset : Bool → ℕ → ℕ
  relative_offset get_all start = if get_all then 0 else start % max

  -- The distribution for one link.
  unfoldable pub distribution_of : Data → ℕ → ℕ → ℕ → DataDistribution
  distribution_of link relative size destination = record {
    source_data = record link { position = relative; data_size = size };
    destination_data = record link { position = destination; data_size = size };
    storage_index = link.storage_index;
  }

  -- `n` is the number of links from `i` on.
  unfoldable pub locate_loop : Bool → ℕ → List Data → ℕ → ℕ → ℕ → ℕ → ℕ → List DataDistribution
  unfolding piece_size relative_offset distribution_of
  locate_loop get_all last links zero i start left destination = []
  locate_loop get_all last links (suc n) i start left destination =
      let relative = relative_offset get_all start in
      let size = piece_size relative left in
      let rest =
        locate_loop get_all last links n (i + 1) (start + size) (left - size)
          (destination + size) in
      if get_all || leb i last
      then distribution_of (get_or links i no_data) relative size destination ∷ rest
      else []

  unfoldable pub distributions_for : Data → List Data → List DataDistribution
  unfolding locate_loop
  distributions_for request links =
      let first = request.position / max in
      locate_loop (request.data_size == 0) ((request.position + request.data_size) / max) links
        (length links - first) first request.position request.data_size 0
