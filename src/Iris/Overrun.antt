-- ===== src/Iris/Overrun.antt =====
-- `do_mapped_write` over the client of files. `FileIOClient::Write` takes `data_size_` for the end of
-- the bytes in the buffer, where the emulated Iris, Redis and MongoDB take it for their number.
use symbios.Base.{
  ℕ, ◌+◌, ◌*◌, ◌/◌, ◌%◌, ◌^◌, ◌≤◌, ◌<◌, ◌≡◌, ◌∙◌, refl, ap, inl, inr, false, ltb, none, some, List,
  [], ◌∷◌, ◌++◌, arith, length,
}
use symbios.Base.Int.{size_difference_zero}
use symbios.Base.Result.{Result, ok, err, out_of_bounds}
use symbios.Base.Text.{Bytes, print_ℕ}
use symbios.Base.Memory.{slice, load, load_lem}
use symbios.Objects.{Data, Io, no_data}
use symbios.Storage.{Storage}
use symbios.FileClient.{FileSystem, IsFileSystem, bytes_to_write, write, write_by, write_answer}
use symbios.FileClient.AsStorage.{file_storage}
use symbios.Client.{Rpc}
use symbios.Iris.{iris_lib, DataDescriptor, new_mapper}
use symbios.Iris.Mapped.{Pieces, map_objects-Mapped}
use symbios.Iris.Handler.{LibHandler, World, write_objects, write_mapped, do_mapped_write}
use symbios.Iris.Stored.{first_of}

-- The clients of a system in which every index reaches one storage, as those of files do.
abbrev pub shared_io : Storage → Io
shared_io st = record {
  State = st.State;
  read = λ i. st.read;
  write = λ i. st.write;
  remove = λ i. st.remove;
  size = λ i. st.size;
}

-- A source whose position is behind its size makes the client read outside the buffer.
bytes_to_write_outside :
    (source : Data) (b : Bytes)
    → source.buffer ≡ some b
    → source.data_size < source.position
    → length b + source.position < 2 ^ 64
    → bytes_to_write source ≡ err out_of_bounds
unfolding bytes_to_write load
bytes_to_write_outside source b hb behind small = rw hb (ground arith)

module _ (fs : FileSystem) (law : IsFileSystem fs) where
  write_outside :
      (s : fs.State) (source d : Data) (b : Bytes)
      → source.buffer ≡ some b
      → source.data_size < source.position
      → length b + source.position < 2 ^ 64
      → write fs s source d ≡ err out_of_bounds
  unfolding write write_by
  write_outside s source d b hb behind small =
      rw
        (
          (law.creates s d.id).0,
          law.reaches (law.created s d.id) d.id d.position,
          bytes_to_write_outside source b hb behind small,
        )
        refl

  -- The front of a buffer is written to a file that is not there.
  write_front :
      (s : fs.State) (source d : Data) (b : Bytes)
      → source.buffer ≡ some b
      → source.position ≡ 0
      → source.data_size ≤ length b
      → d.position ≡ 0
      → fs.contents s d.id ≡ none
      → write fs s source d
        ≡ ok (law.written (law.created s d.id) d.id (slice 0 source.data_size b))
  unfolding write write_by write_answer bytes_to_write
  write_front s source d b hb hp hs hd none_there =
      rw
        (
          (law.creates s d.id).0,
          law.reaches (law.created s d.id) d.id d.position,
          hb,
          hp,
          size_difference_zero source.data_size,
          load_lem b 0 source.data_size (omega (arith, hs)),
          hd,
          (law.writes (law.created s d.id) d.id (slice 0 source.data_size b)
              ((law.creates s d.id).1 none_there)).0,
          not_less (length (slice 0 source.data_size b)),
        )
        refl
    where
      not_less : (n : ℕ) → ltb n n ≡ false
      not_less n = ground arith

  second_write :
      (i max : ℕ) (file block : Bytes) (s : fs.State) (pos : ℕ) (objs : List DataDescriptor)
      → Pieces max file (length block) pos objs
      → pos % max ≡ 0
      → max < length block
      → length block < 2 * max
      → max < 2 ^ 32
      → fs.contents s (file ++ print_ℕ (pos / max)) ≡ none
      → write_objects (shared_io (file_storage fs)) i (some block) objs 0 s ≡ err out_of_bounds
  unfolding write_objects
  second_write i max file block s pos [] p aligned more less small absent =
      absurd (omega (arith, p, more))
  second_write i max file block s pos (o ∷ []) p aligned more less small absent =
      absurd (omega (arith, p.5, p.7, more))
  second_write i max file block s pos (o ∷ o' ∷ os) p aligned more less small absent =
      rw
        (
          write_front s (record no_data { buffer = some block; data_size = o.size })
              (record no_data {
                id = o.id;
                position = o.position;
                data_size = o.size;
                storage_index = i;
              })
              block refl refl p.4 (p.1 ∙ aligned) (ap (fs.contents s) p.0 ∙ absent),
          write_outside (law.written (law.created s o.id) o.id (slice 0 o.size block))
              (record no_data { buffer = some block; position = 0 + o.size; data_size = o'.size })
              (record no_data {
                id = o'.id;
                position = o'.position;
                data_size = o'.size;
                storage_index = i;
              })
              block refl (omega (arith, full, p.7.4)) (omega (arith, full)),
        )
        refl
    where
      full : o.size ≡ max
      full = elim p.6 [
        | inl e ↦ absurd (omega (arith, e, p.7.3, p.7.4))
        | inr e ↦ omega (arith, e, p.1, aligned)
      ]

-- A write through Iris over files, from the start of an object on whose file is not there, of more
-- than one object and less than two reads outside the caller's block: the position of the second
-- piece in the block is behind the size of the piece, whose difference wraps around.
pub do_mapped_write_outside {ℓ} :
    {Client : Type ℓ} (fs : FileSystem) (law : IsFileSystem fs) (get_io_client : ℕ → Result Client)
    (rpc : Rpc) (num_servers : ℕ) (h : LibHandler) (block : Bytes) (offset : ℕ)
    (w : World (shared_io (file_storage fs)) rpc) (client : Client)
    → h.lib_type ≡ iris_lib
    → get_io_client h.db_type ≡ ok client
    → offset % (h.max_obj_size % 2 ^ 32) ≡ 0
    → h.max_obj_size % 2 ^ 32 < length block
    → length block < 2 * (h.max_obj_size % 2 ^ 32)
    → fs.contents w.storage (h.file ++ print_ℕ (offset / (h.max_obj_size % 2 ^ 32))) ≡ none
    → do_mapped_write
        (shared_io (file_storage fs))
        get_io_client
        rpc
        num_servers
        h
        offset
        (length block)
        (some block)
        w
      ≡ err out_of_bounds
unfolding do_mapped_write write_mapped
do_mapped_write_outside fs law get_io_client rpc num_servers h block offset w client iris found
      aligned more less absent =
    let (objs, mapped, pieces) =
      map_objects-Mapped (new_mapper h.db_type h.max_obj_size)
        (record { id = h.file; position = offset; size = length block; chunk_index = 0 })
        (omega (arith, less)) in
    rw
      (
        iris,
        mapped,
        (first_of _ _ (length block) offset objs (omega (arith, more)) pieces).1,
        found,
        second_write fs law h.db_type (h.max_obj_size % 2 ^ 32) h.file block w.storage offset objs
            pieces aligned more less (omega arith) absent,
      )
      refl
