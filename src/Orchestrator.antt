-- ===== src/Orchestrator.antt =====
-- src/symbios/metadata_orchestrator/metadata_orchestrator.cpp: where the segments of an object are,
-- kept as a metadata object on one storage and as links to it on all others.
pub mod Segments
pub mod Tiling
pub mod Contract
pub mod Links
pub mod Known
pub mod Buffers
pub mod Visible
use symbios.Base.{
  ℕ, ◌+◌, ◌/◌, ◌%◌, ◌≡◌, Bool, true, false, not, Option, none, some, List, [], ◌∷◌, ◌++◌, ◌==◌,
  if◌then◌else◌, length,
}
use symbios.Base.Int.{ℤ, pos, negsuc, eqb_ℤ}
use symbios.Base.Result.{Result, ok, err, thrown, null_pointer, ◌>>=◌}
use symbios.Base.Text.{Bytes, codes, print_ℕ}
use symbios.Base.Memory.{load}
use symbios.Objects.{Data, DataDistribution, Metadata, Io, MsgPack, no_data, no_metadata}
use Segments.{links_of, distributions_for}

-- `links_.find(key)`
unfoldable pub find_link : ℤ → List (ℤ × Data) → Option Data
find_link key [] = none
find_link key ((k, d) ∷ links) = if eqb_ℤ k key then some d else find_link key links

unfoldable pub add_unless : Option Data → ℤ → Data → List (ℤ × Data) → List (ℤ × Data)
add_unless (some _) key d links = links
add_unless none key d links = links ++ (key, d) ∷ []

-- `links_.insert({key, d})`, which leaves an entry that is there.
unfoldable pub insert_link : ℤ → Data → List (ℤ × Data) → List (ℤ × Data)
unfolding add_unless
insert_link key d links = add_unless (find_link key links) key d links

-- `links_[-1]`, which makes an empty entry if there is none.
unfoldable pub link_or_new : Option Data → Data
link_or_new (some d) = d
link_or_new none = no_data

abbrev pub meta_id : Bytes → Bytes
meta_id id = id ++ codes "_meta"

-- `std::string(buffer_, data_size_)`
unfoldable pub text_of : Data → Result Bytes
text_of d = elim d.buffer [ none ↦ err null_pointer | some b ↦ load b 0 d.data_size ]

-- What `Store` does with one distribution: the segment that it starts in, and where in the segment.
abbrev pub segment_of : ℕ → DataDistribution → ℕ
segment_of max d = d.destination_data.position / max

unfoldable pub name_segment : ℕ → DataDistribution → DataDistribution
name_segment max d =
    let dest = d.destination_data in
    record d {
      destination_data = record dest {
        position = dest.position % max;
        id = dest.id ++ print_ℕ (dest.position / max);
      };
    }

abbrev pub without_buffer : Data → Data
without_buffer d = record d { buffer = none }

-- The loop of `Store` for an object that is new.
unfoldable pub store_new :
    ℕ → List DataDistribution → List (ℤ × Data) → List DataDistribution × List (ℤ × Data)
store_new max [] links = ([], links)
store_new max (d ∷ ds) links =
    let d' = name_segment max d in
    let rest =
      store_new max ds
        (insert_link (pos (segment_of max d)) (without_buffer d'.destination_data) links) in
    (d' ∷ rest.0, rest.1)

-- A segment that is stored already keeps its name and its storage.
unfoldable pub redirect : ℕ → DataDistribution → Data → DataDistribution
redirect max d link =
    let dest = d.destination_data in
    record d {
      destination_data = record dest {
        id = link.id;
        position = dest.position % max;
        storage_index = link.storage_index;
      };
    }

unfoldable pub drop_buffer : DataDistribution → DataDistribution
drop_buffer d = record d { destination_data = without_buffer d.destination_data }

-- One distribution of an object that exists, before the rest: of a segment that is new, with its
-- link added, or of one that is stored already.
unfoldable pub more_by :
    ℕ
    → DataDistribution
    → Option Data
    → List DataDistribution × List (ℤ × Data) × Bool
    → List DataDistribution × List (ℤ × Data) × Bool
    → List DataDistribution × List (ℤ × Data) × Bool
more_by max d none added kept = (drop_buffer (name_segment max d) ∷ added.0, added.1, added.2)
more_by max d (some link) added kept = (redirect max d link ∷ kept.0, kept.1, kept.2)

-- The loop of `Store` for an object that exists; the flag says that a link was added.
unfoldable pub store_more :
    ℕ
    → List DataDistribution
    → List (ℤ × Data)
    → Bool
    → List DataDistribution × List (ℤ × Data) × Bool
unfolding more_by
store_more max [] links updated = ([], links, updated)
store_more max (d ∷ ds) links updated =
    let key = pos (segment_of max d) in
    let named = drop_buffer (name_segment max d) in
    let added = store_more max ds (insert_link key named.destination_data links) true in
    let kept = store_more max ds links updated in more_by max d (find_link key links) added kept

module _ (io : Io) (codec : MsgPack) (max : ℕ) (solutions : List ℕ) where
  open io use {State, read, write, remove}
  open codec use {pack, unpack}

  -- The first half of `Locate`: the metadata under the request's storage index, or behind its link.
  unfoldable pub read_metadata : State → Data → Result Metadata
  read_metadata s d = do d' ← read d.storage_index s d d; text ← text_of d'; unpack text

  unfoldable pub primary_metadata : State → Data → Result Metadata
  primary_metadata s request = do
    m ←
        read_metadata s
          (record no_data { id = meta_id request.id; storage_index = request.storage_index })
    if m.is_link then read_metadata s (link_or_new (find_link (negsuc 0) m.links)) else ok m

  unfoldable pub locate : State → Data → Result (List DataDistribution × Metadata)
  locate s request = do
    m ← primary_metadata s request
    links ← links_of m
    ok (distributions_for max request links, m)

  -- `original_metadata` as it is written: the packed metadata as its buffer.
  abbrev pub packed : Bytes → ℕ → Metadata → Data
  packed id index m = record {
    id = id;
    position = 0;
    buffer = some (pack m);
    data_size = length (pack m);
    storage_index = index;
  }

  unfoldable pub put_data : State → Data → Result State
  put_data s d = write d.storage_index s d d

  -- The link is written to every storage but the primary one.
  unfoldable pub put_links : Data → ℕ → List ℕ → State → Result State
  put_links link primary [] s = ok s
  put_links link primary (i ∷ rest) s =
      if i == primary
      then put_links link primary rest s
      else put_data s (record link { storage_index = i }) >>= put_links link primary rest

  abbrev pub link_metadata : Data → Metadata
  link_metadata d = record {
    is_link = true;
    storage_index = 0;
    links = (negsuc 0, without_buffer d) ∷ [];
  }

  -- `Store` on an object that has no metadata yet.
  unfoldable pub store_fresh :
      State → Data → List DataDistribution → Result (State × List DataDistribution)
  store_fresh s request ds =
      let named = store_new max ds [] in
      let m : Metadata = record {
        is_link = false;
        storage_index = request.storage_index;
        links = named.1;
      } in
      let meta = packed (meta_id request.id) request.storage_index m in
      put_data s meta >>= λ s'.
      put_links (packed (meta_id request.id) 0 (link_metadata meta)) request.storage_index solutions
        s'
      >>= λ s''. ok (s'', named.0)

  -- `Store` on an object that has metadata `m`: it is written again only if a link was added.
  unfoldable pub store_known :
      State → Data → Metadata → List DataDistribution → Result (State × List DataDistribution)
  store_known s request m ds =
      let more = store_more max ds m.links false in
      let meta = packed (meta_id request.id) m.storage_index (record m { links = more.1 }) in
      if more.2 then (put_data s meta >>= λ s'. ok (s', more.0)) else ok (s, more.0)

  -- An exception of `Locate` means that the object is new; any other failure ends the call.
  unfoldable pub store_by :
      Result (List DataDistribution × Metadata)
      → State
      → Data
      → List DataDistribution
      → Result (State × List DataDistribution)
  store_by (ok (_, m)) s request ds = store_known s request m ds
  store_by (err (thrown _)) s request ds = store_fresh s request ds
  store_by (err e) s request ds = err e

  unfoldable pub store :
      State → Data → List DataDistribution → Result (State × List DataDistribution)
  store s request ds = store_by (locate s request) s request ds

  -- `Delete`: the metadata object is removed from every storage.
  unfoldable pub delete : List ℕ → State → Data → Result (Bool × State)
  delete [] s request = ok (true, s)
  delete (i ∷ rest) s request =
      remove i s (record no_data { id = meta_id request.id; storage_index = i }) >>= λ r.
      delete rest r.1 request
