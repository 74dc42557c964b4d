-- ===== src/Posix/Behaviour.antt =====
-- What the intercepted calls do to the handles and ask of the servers.
use symbios.Base.{
  ℕ, ◌+◌, ◌*◌, ◌%◌, ◌^◌, ◌<◌, ◌≤◌, ◌≡◌, ◌≢◌, ◌∙◌, refl, ap, Bool, true, false, ◌||◌, Option, none,
  some, List, if◌then◌else◌, arith, length, take,
}
use symbios.Base.Int.{ℤ, pos, size_of_int}
use symbios.Base.Result.{ok, ◌>>=◌}
use symbios.Base.Text.{Bytes}
use symbios.Base.Memory.{patch}
use symbios.Objects.{Data, no_data, StorageSolution}
use symbios.Client.{Rpc, size_request, locate_request}
use symbios.Posix.{
  PosixStat, no_stat, find_handle, erase, insert_or_assign, first_pointer, opened_stat,
  is_file_descriptor_tracked, update_on_close, update_on_seek, truncate, update_on_open, is_mode,
  seek_pointer,
}
use symbios.Posix.Calls.{
  Stdio, Program, starts_with, mounted, minus_one, intercept, fopen, fclose, fseek, fread, fwrite,
}
use symbios.Posix.Writes.{fwrite-empty}
use symbios.Posix.Handles.{find-erase, find-erase_ne, find-assign, tracked_found}
use symbios.Posix.Reads.{range_of, fread-inside}

small_mod : (x : ℕ) → x < 2 ^ 64 → x % 2 ^ 64 ≡ x
small_mod x h = ground arith

if_same : (b : Bool) → ◌≡◌ {A = ℕ} (if b then 0 else 0) 0
if_same true = refl
if_same false = refl

-- A file of which the servers know nothing is open at the start, with no content.
opened_empty :
    (stat : PosixStat)
    → stat.file_pointer ≡ 0
    → ((opened_stat stat 0).file_size ≡ 0) × ((opened_stat stat 0).file_pointer ≡ 0)
unfolding opened_stat first_pointer
opened_empty stat start = (
  if_same (is_mode stat "w+"),
  rw (
    start,
    if_same (is_mode stat "w+"),
    if_same (is_mode stat "w" || is_mode stat "w+" || is_mode stat "r" || is_mode stat "r+"),
    if_same (is_mode stat "a+" || is_mode stat "a"),
  ),
)

module _ (rpc : Rpc) (stdio : Stdio) (num_servers : ℕ) where
  -- The program after `fopen` of a file that is intercepted.
  abbrev pub opened_program :
      Program rpc stdio → Bytes → Bytes → ℕ → ℕ → rpc.State → Program rpc stdio
  opened_program p filename mode i size servers =
      let handle = stdio.fmemopen p.files 4096 mode in
      let stat = record no_stat { filename = filename; mode = mode; storage_index = i } in
      record {
        handles = (insert_or_assign (erase p.handles handle.0) handle.0 (opened_stat stat size)).1;
        servers = servers;
        files = handle.1;
      }

  abbrev pub new_stat : Bytes → Bytes → ℕ → PosixStat
  new_stat filename mode i = record no_stat { filename = filename; mode = mode; storage_index = i }

  abbrev pub request_for : Bytes → ℕ → Data
  request_for filename i = record no_data { id = filename; storage_index = i }

  pub fopen-opened :
      (configuration : Bytes) (solutions : List (ℕ × Option StorageSolution))
      (p : Program rpc stdio) (filename mode : Bytes) (i size : ℕ) (s t : rpc.State)
      → starts_with configuration filename ≡ false
      → mounted solutions filename ≡ ok (some i)
      → size_request rpc num_servers p.servers (request_for filename i) ≡ ok (size, s)
      → truncate rpc num_servers (new_stat filename mode i) s (request_for filename i) ≡ ok t
      → fopen rpc stdio num_servers configuration solutions p filename mode
        ≡ ok ((stdio.fmemopen p.files 4096 mode).0, opened_program p filename mode i size t)
  unfolding fopen intercept update_on_open
  fopen-opened configuration solutions p filename mode i size s t other mount sized truncated =
      rw (other, mount, sized, truncated)

  -- A file of a mount of which the servers say that its size is 0, as they do of a file that is not
  -- there, is opened, and then no write of one byte or more is stored, in whatever mode the file is
  -- opened: `fwrite` returns -1, as a `size_t`, and asks nothing of the servers.
  pub fopen-fwrite :
      (configuration : Bytes) (solutions : List (ℕ × Option StorageSolution))
      (p : Program rpc stdio) (filename mode : Bytes) (i : ℕ) (s t : rpc.State) (block : Bytes)
      (size count : ℕ)
      → starts_with configuration filename ≡ false
      → mounted solutions filename ≡ ok (some i)
      → size_request rpc num_servers p.servers (request_for filename i) ≡ ok (0, s)
      → truncate rpc num_servers (new_stat filename mode i) s (request_for filename i) ≡ ok t
      → 0 < (size * count) % 2 ^ 64
      → (fopen rpc stdio num_servers configuration solutions p filename mode >>= λ r.
          fwrite rpc stdio num_servers r.1 block size count r.0)
        ≡ ok (minus_one, opened_program p filename mode i 0 t)
  fopen-fwrite configuration solutions p filename mode i s t block size count other mount sized
        truncated some_bytes =
      let handle = stdio.fmemopen p.files 4096 mode in
      let stat = opened_stat (new_stat filename mode i) 0 in
      ap (λ r. r >>= λ r. fwrite rpc stdio num_servers r.1 block size count r.0)
        (fopen-opened configuration solutions p filename mode i 0 s t other mount sized truncated)
      ∙ fwrite-empty rpc stdio num_servers (opened_program p filename mode i 0 t) block size count
          handle.0 stat (find-assign (erase p.handles handle.0) handle.0 stat)
          (opened_empty (new_stat filename mode i) refl).0
          (opened_empty (new_stat filename mode i) refl).1 some_bytes

  fseek-moves :
      (p : Program rpc stdio) (offset stream : ℕ) (stat : PosixStat)
      → find_handle p.handles stream ≡ some stat
      → (is_mode stat "a+" || is_mode stat "a") ≡ false
      → offset % 2 ^ 64 ≡ offset
      → fseek rpc stdio num_servers p stream (pos offset) 0 ≡ (
        pos 0,
        record p {
          handles = (insert_or_assign p.handles stream (record stat { file_pointer = offset })).1;
        },
      )
  unfolding fseek update_on_seek seek_pointer size_of_int
  fseek-moves p offset stream stat found reads small =
      rw ((tracked_found p.handles stream stat found).0, update_on_seek, found, reads, small, found)

  -- The program behind a read at `offset` that left the servers in `s`.
  abbrev pub read_program : Program rpc stdio → ℕ → PosixStat → ℕ → rpc.State → Program rpc stdio
  read_program p stream stat offset s = record p {
    servers = s;
    handles = (insert_or_assign p.handles stream (record stat { file_pointer = offset })).1;
  }

  -- An open file of a mount that is not opened to append, and a range inside it, which the servers
  -- answer twice by a reply of its size: after `fseek` to the start of the range, `fread` puts the
  -- bytes of the first reply at the start of the caller's block; and the next `fread` of as many
  -- bytes, into any block with room for them, asks for the same range again, and puts the bytes of
  -- the second reply there, since the position of the file has not moved.
  pub fseek-fread :
      (p : Program rpc stdio) (block block' : Bytes) (offset n stream : ℕ) (stat : PosixStat)
      (a a' : Data) (s s' : rpc.State) (b b' : Bytes)
      → find_handle p.handles stream ≡ some stat
      → (is_mode stat "a+" || is_mode stat "a") ≡ false
      → offset + n ≤ stat.file_size
      → stat.file_size < 2 ^ 64
      → n ≤ length block
      → n ≤ length block'
      → locate_request rpc num_servers p.servers
          (range_of stat.filename offset n)
          (range_of stat.filename 0 n)
        ≡ ok (a, s)
      → (a.data_size ≡ n) × (a.buffer ≡ some b) × (n ≤ length b)
      → locate_request rpc num_servers s
          (range_of stat.filename offset n)
          (range_of stat.filename 0 n)
        ≡ ok (a', s')
      → (a'.data_size ≡ n) × (a'.buffer ≡ some b') × (n ≤ length b')
      → (fread rpc stdio num_servers
            (fseek rpc stdio num_servers p stream (pos offset) 0).1
            block
            1
            n
            stream
          ≡ ok (n, patch block 0 (take n b), read_program p stream stat offset s))
        × (fread rpc stdio num_servers (read_program p stream stat offset s) block' 1 n stream
            ≡ ok (n, patch block' 0 (take n b'), read_program p stream stat offset s'))
  fseek-fread p block block' offset n stream stat a a' s s' b b' found reads fits small room room'
        reply (sized, has, enough) reply' (sized', has', enough') =
      (
        ap (λ (r : ℤ × Program rpc stdio). fread rpc stdio num_servers r.1 block 1 n stream)
              (fseek-moves p offset stream stat found reads
                (small_mod offset (omega (arith, fits, small))))
            ∙ fread-inside rpc stdio num_servers (read_program p stream stat offset p.servers) block
                n stream (record stat { file_pointer = offset }) a s b there fits small reply sized
                has enough room,
        fread-inside rpc stdio num_servers (read_program p stream stat offset s) block' n stream
            (record stat { file_pointer = offset }) a' s' b' there fits small reply' sized' has'
            enough' room',
      )
    where
      there :
          find_handle
            (insert_or_assign p.handles stream (record stat { file_pointer = offset })).1
            stream
          ≡ some (record stat { file_pointer = offset })
      there = find-assign p.handles stream (record stat { file_pointer = offset })

  -- A file that is open is not tracked once it is closed, and `fclose` returns 0; what is known of
  -- the other open files stays.
  pub fclose-forgets :
      (p : Program rpc stdio) (stream other : ℕ) (stat : PosixStat)
      → find_handle p.handles stream ≡ some stat
      → other ≢ stream
      → ((fclose rpc stdio num_servers p stream).0 ≡ pos 0)
        × (find_handle (fclose rpc stdio num_servers p stream).1.handles stream ≡ none)
        × (find_handle (fclose rpc stdio num_servers p stream).1.handles other
            ≡ find_handle p.handles other)
  unfolding fclose update_on_close
  fclose-forgets p stream other stat found ne = (
    rw (tracked),
    rw (tracked, update_on_close, found) (find-erase p.handles stream),
    rw (tracked, update_on_close, found) (find-erase_ne p.handles stream other ne),
  )
    where
      tracked : is_file_descriptor_tracked p.handles stream ≡ true
      tracked = (tracked_found p.handles stream stat found).0
