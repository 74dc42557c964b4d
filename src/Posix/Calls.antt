-- ===== src/Posix/Calls.antt =====
-- src/symbios/client/posix.cpp: `fopen`, `fclose`, `fseek`, `fread` and `fwrite`, as the program that
-- loads the library finds them.
use symbios.Base.{
  ℕ, ◌+◌, ◌*◌, ◌-◌, ◌%◌, ◌^◌, Bool, true, false, ◌&&◌, Option, none, some, List, [], ◌∷◌, ltb, ◌==◌,
  if◌then◌else◌,
}
use symbios.Base.Int.{ℤ, pos}
use symbios.Base.Result.{Result, ok, err, null_pointer, ◌>>=◌}
use symbios.Base.Text.{Bytes}
use symbios.Base.Memory.{load, store}
use symbios.Objects.{Data, no_data, StorageSolution, file_ss, redis_ss, mongo_ss}
use symbios.Client.{Rpc, locate_request, store_request}
use symbios.Posix.{
  PosixStat, no_stat, Handles, is_file_descriptor_tracked, update_on_close, get_stat, update_stat,
  update_on_seek, update_on_open,
}

-- The calls of the C library that `dlsym` finds, and `fmemopen`. A `FILE` is its address. `fread`
-- returns its answer and the block that it has read into.
pub record Stdio : Type 1 where
  pub State : Type 0
  pub fopen : State → Bytes → Bytes → ℕ × State
  pub fmemopen : State → ℕ → Bytes → ℕ × State
  pub fclose : State → ℕ → ℤ × State
  pub fseek : State → ℕ → ℤ → ℕ → ℤ × State
  pub fread : State → Bytes → ℕ → ℕ → ℕ → ℕ × Bytes × State
  pub fwrite : State → Bytes → ℕ → ℕ → ℕ → ℕ × State

-- `strncmp(s, prefix, prefix.size()) == 0`
unfoldable pub starts_with : Bytes → Bytes → Bool
starts_with [] s = true
starts_with (c ∷ prefix) [] = false
starts_with (c ∷ prefix) (d ∷ s) = (c == d) && starts_with prefix s

-- The index of the first solution, in the order of the map, whose files are intercepted. A null
-- solution in front of it is looked into.
unfoldable pub mounted : List (ℕ × Option StorageSolution) → Bytes → Result (Option ℕ)
unfolding starts_with
mounted [] filename = ok none
mounted ((i, none) ∷ solutions) filename = err null_pointer
mounted ((i, some (file_ss mount)) ∷ solutions) filename =
    let rest = mounted solutions filename in
    if starts_with mount filename then ok (some i) else rest
mounted ((i, some (redis_ss e port)) ∷ solutions) filename = mounted solutions filename
mounted ((i, some (mongo_ss e database collection)) ∷ solutions) filename =
    mounted solutions filename

-- `(size_t) -1`
abbrev pub minus_one : ℕ
minus_one = 2 ^ 64 - 1

-- The handles, the servers and the C library.
pub record Program (rpc : Rpc) (stdio : Stdio) : Type 0 where
  pub handles : Handles
  pub servers : rpc.State
  pub files : stdio.State

-- `memcpy` of the reply to the block of the caller, unless the size is another than was asked for.
unfoldable pub deliver : Data → ℕ → Bytes → Result (ℕ × Bytes)
deliver d n block =
    if d.data_size == n
    then elim d.buffer [
      | none ↦ err null_pointer
      | some b ↦ load b 0 n >>= λ bytes. store block 0 bytes >>= λ full. ok (n, full)
    ]
    else ok (d.data_size, block)

-- The handles after a write that has been stored.
unfoldable pub grown : PosixStat → Handles → ℕ → ℕ → Handles
unfolding update_stat
grown stat handles stream n =
    if ltb stat.file_size ((n + stat.file_pointer) % 2 ^ 64)
    then (update_stat handles stream
        (record stat { file_size = (n + stat.file_pointer) % 2 ^ 64 })).1
    else handles

module _ (rpc : Rpc) (stdio : Stdio) (num_servers : ℕ) where
  unfoldable pub intercept :
      Option ℕ → Program rpc stdio → Bytes → Bytes → Result (ℕ × Program rpc stdio)
  unfolding update_on_open
  intercept none p filename mode =
      let opened = stdio.fopen p.files filename mode in ok (opened.0, record p { files = opened.1 })
  intercept (some i) p filename mode =
      let opened = stdio.fmemopen p.files 4096 mode in
      let stat = record no_stat { filename = filename; mode = mode; storage_index = i } in
      update_on_open rpc num_servers p.handles opened.0 stat p.servers >>= λ u.
      ok (opened.0, record { handles = u.1; servers = u.2; files = opened.1 })

  unfoldable pub fopen :
      Bytes
      → List (ℕ × Option StorageSolution)
      → Program rpc stdio
      → Bytes
      → Bytes
      → Result (ℕ × Program rpc stdio)
  unfolding intercept starts_with mounted
  fopen configuration_file solutions p filename mode =
      (if starts_with configuration_file filename then ok none else mounted solutions filename)
      >>= λ mount. intercept mount p filename mode

  unfoldable pub fclose : Program rpc stdio → ℕ → ℤ × Program rpc stdio
  unfolding is_file_descriptor_tracked update_on_close
  fclose p stream =
      if is_file_descriptor_tracked p.handles stream
      then (pos 0, record p { handles = (update_on_close p.handles stream).1 })
      else ((stdio.fclose p.files stream).0, record p { files = (stdio.fclose p.files stream).1 })

  unfoldable pub fseek : Program rpc stdio → ℕ → ℤ → ℕ → ℤ × Program rpc stdio
  unfolding is_file_descriptor_tracked update_on_seek
  fseek p stream offset origin =
      if is_file_descriptor_tracked p.handles stream
      then (
        (update_on_seek p.handles stream offset origin).0,
        record p { handles = (update_on_seek p.handles stream offset origin).1 },
      )
      else (
        (stdio.fseek p.files stream offset origin).0,
        record p { files = (stdio.fseek p.files stream offset origin).1 },
      )

  -- A range that does not end inside the file is refused.
  unfoldable pub read_tracked :
      Bool × PosixStat → Program rpc stdio → Bytes → ℕ → Result (ℕ × Bytes × Program rpc stdio)
  unfolding deliver
  read_tracked (false, stat) p block n = ok (0, block, p)
  read_tracked (true, stat) p block n =
      if ltb stat.file_size ((stat.file_pointer + n) % 2 ^ 64)
      then ok (minus_one, block, p)
      else (let source = record no_data {
        id = stat.filename;
        position = stat.file_pointer;
        data_size = n;
      } in
          locate_request rpc num_servers p.servers source (record source { position = 0 }) >>= λ r.
          deliver r.0 n block >>= λ t. ok (t.0, t.1, record p { servers = r.1 }))

  unfoldable pub fread :
      Program rpc stdio → Bytes → ℕ → ℕ → ℕ → Result (ℕ × Bytes × Program rpc stdio)
  unfolding is_file_descriptor_tracked get_stat read_tracked
  fread p block size count stream =
      if is_file_descriptor_tracked p.handles stream
      then read_tracked (get_stat p.handles stream) p block ((size * count) % 2 ^ 64)
      else (let r = stdio.fread p.files block size count stream in
          ok (r.0, r.1, record p { files = r.2 }))

  unfoldable pub write_tracked :
      Bool × PosixStat → Program rpc stdio → Bytes → ℕ → ℕ → Result (ℕ × Program rpc stdio)
  unfolding grown
  write_tracked (false, stat) p block n stream = ok (0, p)
  write_tracked (true, stat) p block n stream =
      if ltb stat.file_size ((stat.file_pointer + n) % 2 ^ 64)
      then ok (minus_one, p)
      else (let destination = record no_data {
        id = stat.filename;
        position = stat.file_pointer;
        data_size = n;
      } in
          load block 0 n >>= λ bytes.
          let source = record destination { position = 0; buffer = some bytes } in
          store_request rpc num_servers p.servers source destination >>= λ s.
          ok (n, record p { servers = s; handles = grown stat p.handles stream n }))

  unfoldable pub fwrite : Program rpc stdio → Bytes → ℕ → ℕ → ℕ → Result (ℕ × Program rpc stdio)
  unfolding is_file_descriptor_tracked get_stat write_tracked
  fwrite p block size count stream =
      if is_file_descriptor_tracked p.handles stream
      then write_tracked (get_stat p.handles stream) p block ((size * count) % 2 ^ 64) stream
      else (let r = stdio.fwrite p.files block size count stream in
          ok (r.0, record p { files = r.1 }))
