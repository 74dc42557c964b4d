-- ===== src/Posix.antt =====
-- src/symbios/client/posix.cpp and posix.h: the stdio calls of a program, which for files of the
-- configured mounts become requests to the servers.
pub mod Calls
pub mod Handles
pub mod Writes
pub mod Reads
pub mod Behaviour
use symbios.Base.{
  ℕ, ◌+◌, ◌%◌, ◌^◌, Bool, true, false, ◌||◌, Option, none, some, List, [], ◌∷◌, ◌==◌, if◌then◌else◌,
}
use Prim.Native.String.{String}
use symbios.Base.Int.{ℤ, pos, negsuc, size_of_int, int_of_size, size_difference}
use symbios.Base.Result.{Result, ok, err, ◌>>=◌}
use symbios.Base.Text.{Bytes, codes}
use symbios.Collection.{bytes_eq}
use symbios.Objects.{Data, no_data}
use symbios.Client.{Rpc, size_request, delete_request}

-- `PosixStat`
pub record PosixStat : Type 0 where
  pub filename : Bytes
  pub file_pointer : ℕ
  pub file_size : ℕ
  pub mode : Bytes
  pub storage_index : ℕ

abbrev pub no_stat : PosixStat
no_stat = record { filename = []; file_pointer = 0; file_size = 0; mode = []; storage_index = 0 }

-- `fileDescriptorMap_`, by the address of the `FILE`.
abbrev pub Handles : Type 0
Handles = List (ℕ × PosixStat)

unfoldable pub find_handle : Handles → ℕ → Option PosixStat
find_handle [] fh = none
find_handle ((h, stat) ∷ table) fh =
    let rest = find_handle table fh in if h == fh then some stat else rest

unfoldable pub erase : Handles → ℕ → Handles
erase [] fh = []
erase ((h, stat) ∷ table) fh =
    let rest = erase table fh in if h == fh then rest else (h, stat) ∷ rest

unfoldable pub assign_by : Option PosixStat → Handles → ℕ → PosixStat → Bool × Handles
unfolding erase
assign_by none table fh stat = (true, (fh, stat) ∷ table)
assign_by (some old) table fh stat = (false, (fh, stat) ∷ erase table fh)

-- `insert_or_assign`, with whether it inserted.
unfoldable pub insert_or_assign : Handles → ℕ → PosixStat → Bool × Handles
unfolding find_handle assign_by
insert_or_assign table fh stat = assign_by (find_handle table fh) table fh stat

abbrev pub is_mode : PosixStat → String → Bool
is_mode stat mode = bytes_eq stat.mode (codes mode)

-- The pointer of a file that is opened, before and after its size is known.
unfoldable pub first_pointer : PosixStat → ℕ
first_pointer stat =
    if is_mode stat "w" || is_mode stat "w+" || is_mode stat "r" || is_mode stat "r+"
    then 0
    else stat.file_pointer

unfoldable pub opened_stat : PosixStat → ℕ → PosixStat
unfolding first_pointer
opened_stat stat size =
    let file_size = if is_mode stat "w+" then 0 else size in
    record stat {
      file_size = file_size;
      file_pointer =
          if is_mode stat "a+" || is_mode stat "a" then file_size else first_pointer stat;
    }

unfoldable pub is_file_descriptor_tracked : Handles → ℕ → Bool
unfolding find_handle
is_file_descriptor_tracked table fh = elim (find_handle table fh) [
  | none ↦ false
  | some stat ↦ true
]

unfoldable pub update_on_close : Handles → ℕ → Bool × Handles
unfolding find_handle erase
update_on_close table fh = elim (find_handle table fh) [
  | none ↦ (false, table)
  | some stat ↦ (true, erase table fh)
]

unfoldable pub get_stat : Handles → ℕ → Bool × PosixStat
unfolding find_handle
get_stat table fh = elim (find_handle table fh) [
  | none ↦ (false, no_stat)
  | some stat ↦ (true, stat)
]

unfoldable pub update_stat : Handles → ℕ → PosixStat → Bool × Handles
unfolding insert_or_assign
update_stat table fh stat = insert_or_assign table fh stat

-- SEEK_SET, SEEK_CUR and SEEK_END are 0, 1 and 2.
unfoldable pub seek_pointer : PosixStat → ℤ → ℕ → ℕ
seek_pointer stat offset origin =
    if origin == 1
    then (stat.file_pointer + size_of_int offset) % 2 ^ 64
    else if origin == 0
    then size_of_int offset
    else if origin == 2
    then size_difference stat.file_size (size_of_int offset)
    else stat.file_pointer

unfoldable pub update_on_seek : Handles → ℕ → ℤ → ℕ → ℤ × Handles
unfolding find_handle insert_or_assign seek_pointer
update_on_seek table fh offset origin = elim (find_handle table fh) [
  | none ↦ (negsuc 0, table)
  | some stat ↦
      if is_mode stat "a+" || is_mode stat "a" then (int_of_size stat.file_size, table) else (
        pos 0,
        (insert_or_assign table fh
            (record stat { file_pointer = seek_pointer stat offset origin })).1,
      )
]

module _ (rpc : Rpc) (num_servers : ℕ) where
  -- The file of mode "w+" is deleted from the storage; the reply to that is not looked at.
  unfoldable pub truncate : PosixStat → rpc.State → Data → Result rpc.State
  truncate stat s source =
      if is_mode stat "w+" then (delete_request rpc num_servers s source >>= λ r. ok r.1) else ok s

  -- `UpdateOnOpen`
  unfoldable pub update_on_open :
      Handles → ℕ → PosixStat → rpc.State → Result (Bool × Handles × rpc.State)
  unfolding erase insert_or_assign opened_stat truncate
  update_on_open table fh stat s =
      let source = record no_data { id = stat.filename; storage_index = stat.storage_index } in
      size_request rpc num_servers s source >>= λ r. truncate stat r.1 source >>= λ t.
      let inserted = insert_or_assign (erase table fh) fh (opened_stat stat r.0) in
      ok (inserted.0, inserted.1, t)
