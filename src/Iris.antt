-- ===== src/Iris.antt =====
-- src/common/src/common/iris.cpp and include/common/iris.h of the same library: an emulation of
-- Iris, which cuts a file into objects of one size and stores each object by itself.
pub mod Handler
pub mod Mapped
pub mod Ranges
pub mod Stored
pub mod Overrun
pub mod Setup
pub mod SameCut
pub mod Held
pub mod Unread
use symbios.Base.{
  ℕ, zero, suc, ◌+◌, ◌-◌, ◌/◌, ◌%◌, ◌^◌, Bool, List, [], ◌∷◌, ◌++◌, ltb, ◌==◌, if◌then◌else◌,
}
use symbios.Base.Result.{Result, ok, err, division_by_zero, out_of_fuel, ◌>>=◌}
use symbios.Base.Text.{Bytes, print_ℕ}
use symbios.Base.Memory.{load, store}

pub data IoLib : Type 0 where
  posix_lib iris_lib niobe_lib symbios_lib : IoLib

pub data OpType : Type 0 where
  read_op write_op delete_op : OpType

pub record DataDescriptor : Type 0 where
  pub id : Bytes
  pub position : ℕ
  pub size : ℕ
  pub chunk_index : ℕ

-- `DataMapper`, with the size of the objects as a `uint`.
pub record DataMapper : Type 0 where
  pub storage_type : ℕ
  pub max_obj_size : ℕ

-- The constructor, which is given a `long`.
abbrev pub new_mapper : ℕ → ℕ → DataMapper
new_mapper storage_type max_obj_size = record {
  storage_type = storage_type;
  max_obj_size = max_obj_size % 2 ^ 32;
}

-- One round of the loop of `DataMapper::map`, with `left` bytes left from `curr_pos` on.
unfoldable pub object_at : ℕ → Bytes → ℕ → ℕ → DataDescriptor
object_at max id left curr_pos =
    let position = curr_pos % max in
    record {
      id = id ++ print_ℕ (curr_pos / max);
      position = position;
      size = if ltb (max - position) left then max - position else left;
      chunk_index = curr_pos / max % 2 ^ 32;
    }

unfoldable pub map_loop : ℕ → ℕ → Bytes → ℕ → ℕ → Result (List DataDescriptor)
unfolding object_at
map_loop zero max id left curr_pos = if left == 0 then ok [] else err out_of_fuel
map_loop (suc fuel) max id left curr_pos =
    let obj = object_at max id left curr_pos in
    let rest = map_loop fuel max id (left - obj.size) (curr_pos + obj.size) in
    if left == 0
    then ok []
    else if max == 0
    then err division_by_zero
    else rest >>= λ objects. ok (obj ∷ objects)

-- `DataMapper::map`. Each round takes at least one byte.
unfoldable pub map_objects : DataMapper → DataDescriptor → Result (List DataDescriptor)
unfolding map_loop
map_objects mapper src = map_loop src.size mapper.max_obj_size src.id src.size src.position

-- `slice_str`: the bytes from `start` to `end`, both of them included, and a NUL.
unfoldable pub slice_str : Bytes → Bytes → ℕ → ℕ → Result Bytes
unfolding load store
slice_str str buffer start end =
    if ltb end start
    then store buffer 0 (0 ∷ [])
    else (load str start (suc end - start) >>= λ part. store buffer 0 (part ++ 0 ∷ []))
