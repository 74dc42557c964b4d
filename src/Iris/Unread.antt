-- ===== src/Iris/Unread.antt =====
-- What the caller of `do_mapped_read` gets from the emulated Iris of a block that is stored.
use mathlib.Core.Path.{subst}
use symbios.Base.{
  ℕ, ◌+◌, ◌*◌, ◌/◌, ◌%◌, ◌^◌, ◌<◌, ◌≡◌, ◌∙◌, ap, refl, false, Option, some, List, [], ◌∷◌, arith,
  ltb, if◌then◌else◌, length,
}
use symbios.Base.Int.{size_difference}
use symbios.Base.Result.{ErrorCode, Result, ok, err, thrown, ◌>>=◌}
use symbios.Base.Text.{Bytes}
use symbios.Objects.{Io, no_data}
use symbios.Client.{Rpc}
use symbios.Storage.{IsRangeStorage}
use symbios.Iris.{iris_lib, DataDescriptor, new_mapper, map_objects}
use symbios.Iris.Mapped.{Pieces, map_objects-Mapped}
use symbios.Iris.Ranges.{storage_at, MissingFrom, HoldFrom}
use symbios.Iris.Stored.{do_mapped_write-HoldFrom}
use symbios.Iris.Handler.{
  LibHandler, World, read_objects, end_line, read_by, do_mapped_read, do_mapped_write,
}
use symbios.Iris.Held.{read_objects_held}

-- The first object of a range is not there.
read_objects-Missing :
    (io : Io) (h : LibHandler) (s : io.State) (max : ℕ) (block : Bytes) (offset size left : ℕ)
    (objs : List DataDescriptor) (out : Bytes)
    → 0 < left
    → Pieces max h.file left offset objs
    → MissingFrom io h.db_type max h.file block s (offset / max)
    → (c : ErrorCode) × (read_objects io h size objs 0 s out ≡ err (thrown c))
unfolding read_objects
read_objects-Missing io h s max block offset size left [] out some_left p absent =
    absurd (omega (arith, some_left, p))
read_objects-Missing io h s max block offset size left (o ∷ os) out some_left p absent =
    let (c, e) =
      absent (offset / max) (omega arith)
        (record no_data {
          id = o.id;
          position = o.position;
          data_size = o.size;
          storage_index = h.db_type;
        })
        (record no_data {
          data_size = if ltb size ((0 + o.size) % 2 ^ 64) then size_difference size 0 else o.size;
        })
        p.0 in
    (c, rw e refl)

do_mapped_read-fails {ℓ} :
    {Client : Type ℓ} (io : Io) (get_io_client : ℕ → Result Client) (rpc : Rpc) (num_servers : ℕ)
    (h : LibHandler) (offset size : ℕ) (buffer : Option Bytes) (w : World io rpc) (client : Client)
    (objs : List DataDescriptor) (c : ErrorCode)
    → h.lib_type ≡ iris_lib
    → get_io_client h.db_type ≡ ok client
    → map_objects
        (new_mapper h.db_type h.max_obj_size)
        (record { id = h.file; position = offset; size = size; chunk_index = 0 })
      ≡ ok objs
    → read_objects io h size objs 0 w.storage w.output ≡ err (thrown c)
    → do_mapped_read io get_io_client rpc num_servers h offset size buffer w ≡ err (thrown c)
unfolding do_mapped_read read_by
do_mapped_read-fails io get_io_client rpc num_servers h offset size buffer w client objs c iris
      found mapped fails =
    rw (iris, mapped, found, fails) refl

-- On a storage that stores ranges of buffers, with objects of at least one byte and without printing, a
-- block of at least one byte and less than 2^31 is written through Iris, from the start of an object
-- on, where no object from that one on is there yet and the client is found. A read of the same range
-- in front of the write fails with an exception. Behind it the objects hold the block, and the read
-- ends well, changes nothing, and gives back the block that it was to read into as that was.
pub do_mapped_write-read_unread {ℓ} :
    {Client : Type ℓ} (io : Io) (get_io_client : ℕ → Result Client) (rpc : Rpc) (num_servers : ℕ)
    (h : LibHandler) (law : IsRangeStorage (storage_at io h.db_type))
    (some_max : 0 < h.max_obj_size % 2 ^ 32) (block : Bytes) (offset : ℕ) (w : World io rpc)
    (client : Client) (buffer : Option Bytes)
    → h.lib_type ≡ iris_lib
    → h.print_p ≡ false
    → get_io_client h.db_type ≡ ok client
    → 0 < length block
    → length block < 2 ^ 31
    → offset % (h.max_obj_size % 2 ^ 32) ≡ 0
    → MissingFrom io h.db_type
        (h.max_obj_size % 2 ^ 32)
        h.file
        block
        w.storage
        (offset / (h.max_obj_size % 2 ^ 32))
    → (t : io.State) × ((do_mapped_write io get_io_client rpc num_servers h offset
            (length block)
            (some block)
            w
          >>= do_mapped_read io get_io_client rpc num_servers h offset (length block) buffer)
        ≡ ok (record w { storage = t }, buffer))
      × HoldFrom io h.db_type
          (h.max_obj_size % 2 ^ 32)
          h.file
          block
          t
          (offset / (h.max_obj_size % 2 ^ 32))
          0
          (length block)
      × (c : ErrorCode) × (do_mapped_read io get_io_client rpc num_servers h offset
            (length block)
            buffer
            w
          ≡ err (thrown c))
unfolding do_mapped_read read_by end_line
do_mapped_write-read_unread io get_io_client rpc num_servers h law some_max block offset w client
      buffer iris quiet found some_bytes small aligned absent =
    let (t, writes, hold, below) =
      do_mapped_write-HoldFrom io get_io_client rpc num_servers h law some_max block offset w client
        iris found some_bytes aligned absent in
    let (objs, mapped, pieces) =
      map_objects-Mapped (new_mapper h.db_type h.max_obj_size)
        (record { id = h.file; position = offset; size = length block; chunk_index = 0 })
        some_max in
    let (c, fails) =
      read_objects-Missing io h w.storage (h.max_obj_size % 2 ^ 32) block offset (length block)
        (length block) objs w.output some_bytes pieces absent in
    (
      t,
      ap (λ q. q >>= do_mapped_read io get_io_client rpc num_servers h offset (length block) buffer)
            writes
          ∙ rw
              (
                mapped,
                iris,
                found,
                ap (λ k. read_objects io h (length block) objs k t w.output)
                      (zero_times (h.max_obj_size % 2 ^ 32))
                    ∙ read_objects_held io h quiet t (h.max_obj_size % 2 ^ 32) some_max block
                        (offset / (h.max_obj_size % 2 ^ 32)) small hold objs 0 (length block)
                        w.output
                        (subst (λ k. Pieces (h.max_obj_size % 2 ^ 32) h.file (length block) k objs)
                          (whole_objects (h.max_obj_size % 2 ^ 32) offset some_max aligned) pieces)
                        (omega arith),
                quiet,
              )
              refl,
      hold,
      c,
      do_mapped_read-fails io get_io_client rpc num_servers h offset (length block) buffer w client
          objs c iris found mapped fails,
    )
  where
    zero_times : (max : ℕ) → 0 ≡ 0 * max
    zero_times max = omega arith

    whole_objects :
        (max offset : ℕ) → 0 < max → offset % max ≡ 0 → offset ≡ (offset / max + 0) * max
    whole_objects max offset some_max aligned = grind arith
