-- ===== src/Iris/Stored.antt =====
-- What `do_mapped_write` leaves in storage clients that store ranges of buffers: the objects of the
-- emulated Iris hold the file.
use mathlib.Core.Path.{subst}
use symbios.Base.{
  ℕ, suc, ◌+◌, ◌-◌, ◌/◌, ◌%◌, ◌^◌, ◌≤◌, ◌<◌, ◌≡◌, ◌∙◌, refl, sym, ap, ◌⊎◌, inl, inr, some, List, [],
  ◌∷◌, arith, length,
}
use symbios.Base.Result.{Result, ok}
use symbios.Base.Text.{Bytes}
use symbios.Base.Memory.{slice}
use symbios.Objects.{Io, no_data}
use symbios.Storage.{IsRangeStorage}
use symbios.Client.{Rpc}
use symbios.Iris.{iris_lib, DataDescriptor, new_mapper}
use symbios.Iris.Mapped.{Pieces, map_objects-Mapped}
use symbios.Iris.Handler.{
  LibHandler, World, write_objects, write_mapped, do_mapped_write, first_object,
}
use symbios.Iris.Ranges.{
  storage_at, object_id, MissingFrom, HoldFrom, SameBelow, Wrote, one_more, still_missing,
  whole_piece, next_object,
}

module _ (io : Io) (i : ℕ) (law : IsRangeStorage (storage_at io i)) (max : ℕ) (some_max : 0 < max)
    (file block : Bytes) where
  -- The write of the first object of a piece that starts with it.
  first_write :
      (o : DataDescriptor) (os : List DataDescriptor) (s : io.State) (pos from left : ℕ)
      → Pieces max file left pos (o ∷ os)
      → pos % max ≡ 0
      → length block ≡ from + left
      → MissingFrom io i max file block s (pos / max)
      → Wrote io i law max some_max file block
          (law.after s (object_id file (pos / max)) (slice from o.size block))
          (suc (pos / max))
          (from + o.size)
          (left - o.size)
          (write_objects io i
            (some block)
            os
            (from + o.size)
            (law.after s (object_id file (pos / max)) (slice from o.size block)))
      → Wrote io i law max some_max file block s
          (pos / max)
          from
          left
          (write_objects io i (some block) (o ∷ os) from s)
  unfolding write_objects
  first_write o os s pos from left p aligned fits absent rest =
      rw (named, p.0)
        (one_more io i law max some_max file block s (pos / max) from left o.size
          (slice from o.size block) _ whole last absent rest)
    where
      at_start : o.position ≡ 0
      at_start = p.1 ∙ aligned

      sizes : (o.size ≡ left) ⊎ (o.size ≡ max)
      sizes = elim p.6 [ inl e ↦ inl e | inr e ↦ inr (omega (arith, e, at_start)) ]

      last : (left ≤ max) ⊎ (o.size ≡ max)
      last = elim p.6 [
        | inl e ↦ inl (omega (arith, e, p.5))
        | inr e ↦ inr (omega (arith, e, at_start))
      ]

      whole : slice from o.size block ≡ slice from max block
      whole =
          whole_piece io i law max some_max file block from left o.size fits p.4 sizes
            (omega (arith, p.5))

      named :
          io.write i s
            (record no_data { buffer = some block; position = from; data_size = o.size })
            (record no_data {
              id = o.id;
              position = o.position;
              data_size = o.size;
              storage_index = i;
            })
          ≡ ok (law.after s o.id (slice from o.size block))
      named =
          law.ranges s _ _ block refl (omega (arith, p.4, fits)) at_start
            (λ q d is. absent (pos / max) (omega arith) q d (is ∙ p.0))

  write_objects-Wrote :
      (objs : List DataDescriptor) (s : io.State) (pos from left : ℕ)
      → Pieces max file left pos objs
      → pos % max ≡ 0
      → length block ≡ from + left
      → MissingFrom io i max file block s (pos / max)
      → Wrote io i law max some_max file block s
          (pos / max)
          from
          left
          (write_objects io i (some block) objs from s)
  unfolding write_objects
  write_objects-Wrote [] s pos from left done aligned fits absent =
      (s, refl, λ j h. absurd (omega (arith, done, h)), λ j q d h is. refl)
  write_objects-Wrote (o ∷ []) s pos from left p aligned fits absent =
      first_write o [] s pos from left p aligned fits absent (
        law.after s (object_id file (pos / max)) (slice from o.size block),
        refl,
        λ j h. absurd (omega (arith, p.7, h)),
        λ j q d h is. refl,
      )
  write_objects-Wrote (o ∷ o' ∷ os) s pos from left p aligned fits absent =
      first_write o (o' ∷ os) s pos from left p aligned fits absent (
        subst
          (λ n. Wrote io i law max some_max file block s' n (from + o.size) (left - o.size) result)
          number
          (write_objects-Wrote (o' ∷ os) s' (pos + o.size) (from + o.size) (left - o.size) p.7
            (ap (λ k. (pos + k) % max) full
              ∙ (next_object io i law max some_max file block pos).1
              ∙ aligned)
            (omega (arith, fits, p.4))
            (subst (λ n. MissingFrom io i max file block s' n) (sym number)
              (still_missing io i law max some_max file block s (pos / max)
                (slice from o.size block) absent))))
    where
      s' : io.State
      s' = law.after s (object_id file (pos / max)) (slice from o.size block)

      result : Result io.State
      result = write_objects io i (some block) (o' ∷ os) (from + o.size) s'

      full : o.size ≡ max
      full = elim p.6 [
        | inl e ↦ absurd (omega (arith, e, p.7.3, p.7.4))
        | inr e ↦ omega (arith, e, p.1, aligned)
      ]

      number : (pos + o.size) / max ≡ suc (pos / max)
      number = ap (λ k. (pos + k) / max) full ∙ (next_object io i law max some_max file block pos).0

-- A range of at least one byte has a first object.
pub first_of :
    (max : ℕ) (file : Bytes) (left pos : ℕ) (objs : List DataDescriptor)
    → 0 < left
    → Pieces max file left pos objs
    → (o : DataDescriptor) × (first_object objs ≡ ok o)
unfolding first_object
first_of max file left pos [] some_left done = absurd (omega (arith, done))
first_of max file left pos (o ∷ os) some_left p = (o, refl)

-- On a storage that stores ranges of buffers, with objects of at least one byte, a write of at least
-- one byte through Iris, from the start of an object on, where no object from that one on is there
-- yet and the client is found, ends well; the objects from that one on then hold the block, cut into
-- pieces of the size of an object, the last one with what is left; the objects in front of them are
-- read as before.
pub do_mapped_write-HoldFrom {ℓ} :
    {Client : Type ℓ} (io : Io) (get_io_client : ℕ → Result Client) (rpc : Rpc) (num_servers : ℕ)
    (h : LibHandler) (law : IsRangeStorage (storage_at io h.db_type))
    (some_max : 0 < h.max_obj_size % 2 ^ 32) (block : Bytes) (offset : ℕ) (w : World io rpc)
    (client : Client)
    → h.lib_type ≡ iris_lib
    → get_io_client h.db_type ≡ ok client
    → 0 < length block
    → offset % (h.max_obj_size % 2 ^ 32) ≡ 0
    → MissingFrom io h.db_type
        (h.max_obj_size % 2 ^ 32)
        h.file
        block
        w.storage
        (offset / (h.max_obj_size % 2 ^ 32))
    → (t : io.State) × (do_mapped_write io get_io_client rpc num_servers h offset
          (length block)
          (some block)
          w
        ≡ ok (record w { storage = t }))
      × HoldFrom io h.db_type
          (h.max_obj_size % 2 ^ 32)
          h.file
          block
          t
          (offset / (h.max_obj_size % 2 ^ 32))
          0
          (length block)
      × SameBelow io h.db_type
          (h.max_obj_size % 2 ^ 32)
          h.file
          block
          w.storage
          t
          (offset / (h.max_obj_size % 2 ^ 32))
unfolding do_mapped_write write_mapped
do_mapped_write-HoldFrom io get_io_client rpc num_servers h law some_max block offset w client iris
      found some_bytes aligned absent =
    let (objs, mapped, pieces) =
      map_objects-Mapped (new_mapper h.db_type h.max_obj_size)
        (record { id = h.file; position = offset; size = length block; chunk_index = 0 })
        some_max in
    let (t, e, hold, below) =
      write_objects-Wrote io h.db_type law (h.max_obj_size % 2 ^ 32) some_max h.file block objs
        w.storage offset 0 (length block) pieces aligned (omega arith) absent in
    (
      t,
      rw (iris, mapped, (first_of _ _ (length block) offset objs some_bytes pieces).1, found, e)
          refl,
      hold,
      below,
    )
