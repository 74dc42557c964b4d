-- ===== src/Replayer.antt =====
-- src/common/include/common/replayer.h: a trace of calls, one in each line of a file, replayed on a
-- library of iris.h or on the C library.
pub mod Files
pub mod Print
pub mod Blank
use symbios.Base.{
  ℕ, zero, suc, ◌+◌, ◌%◌, Bool, true, false, ◌&&◌, Option, none, some, List, [], ◌∷◌, ◌++◌, ltb,
  ◌==◌, if◌then◌else◌, length, get_or,
}
use symbios.Base.Int.{ℤ, pos, negsuc, size_of_int, ltb_ℤ, ◌+ℤ◌}
use symbios.Base.Result.{Result, ok, err, null_pointer, out_of_bounds, uninitialised, ◌>>=◌}
use symbios.Base.Text.{Bytes, codes, print_ℤ, strtok, atoi}
use symbios.Base.Memory.{c_string}
use symbios.Collection.{bytes_eq}
use symbios.Objects.{Io}
use symbios.Client.{Rpc}
use symbios.Posix.Calls.{Stdio}
use symbios.RedisClient.Endpoint.{attach}
use symbios.ShadowLink.Serde.{atoi_token}
use symbios.Iris.{
  IoLib, posix_lib, iris_lib, niobe_lib, symbios_lib, OpType, read_op, write_op, delete_op,
}
use symbios.Iris.Handler.{LibHandler, World, run}

-- The words of a trace; any other word does nothing.
pub data Operation : Type 0 where
  fopen_line fclose_line write_line read_line lseek_line other_line : Operation

pub record Line : Type 0 where
  pub operation : Operation
  pub offset : ℤ
  pub request_size : ℤ

unfoldable pub operation_of : Bytes → Operation
unfolding bytes_eq
operation_of word =
    if bytes_eq word (codes "FOPEN")
    then fopen_line
    else if bytes_eq word (codes "FCLOSE")
    then fclose_line
    else if bytes_eq word (codes "WRITE")
    then write_line
    else if bytes_eq word (codes "READ")
    then read_line
    else if bytes_eq word (codes "LSEEK")
    then lseek_line
    else other_line

unfoldable pub operation_token : Option Bytes → Result Operation
unfolding operation_of
operation_token none = err null_pointer
operation_token (some word) = ok (operation_of word)

-- The three tokens of a line. `atol` is modelled as `atoi`, without a bound.
unfoldable pub split_line : Bytes → Result Line
unfolding operation_token
split_line line =
    let t₁ = strtok b',' (c_string line) in
    let t₂ = strtok b',' t₁.1 in
    let t₃ = strtok b',' t₂.1 in
    operation_token t₁.0 >>= λ operation. atoi_token t₂.0 >>= λ offset. atoi_token t₃.0 >>= λ size.
    ok (record { operation = operation; offset = offset; request_size = size })

-- The lines that `getline` returns in turn, each with its newline.
unfoldable pub lines_of : Bytes → List Bytes
unfolding attach
lines_of [] = []
lines_of (c ∷ file) =
    let rest = lines_of file in if c == b'\n' then (c ∷ []) ∷ rest else attach c rest

abbrev pub charset : Bytes
charset = codes "abcdefghijklmnopqrstuvwxyzABCDEFGHIJKLMNOPQRSTUVWXYZ0123456789,.-#'?!"

-- What the calls outside the program do: stdio, the `remove` of a file, the block that `malloc`
-- returns, and the numbers that `rand` returns.
pub record CLibrary : Type 1 where
  pub stdio : Stdio
  pub remove : stdio.State → Bytes → stdio.State
  pub malloc : ℕ → Bytes
  pub rand : ℕ → ℕ

module _ (rand : ℕ → ℕ) where
  unfoldable pub random_bytes : ℕ → ℕ → Bytes
  random_bytes drawn zero = 0 ∷ []
  random_bytes drawn (suc n) =
      get_or charset (rand drawn % length charset) 0 ∷ random_bytes (drawn + 1) n

  -- `randstring`, and how many numbers have been drawn behind it. For the length -1 the NUL is set in
  -- front of the block; an allocation of a smaller length fails.
  unfoldable pub randstring : ℕ → ℤ → Result (Option Bytes × ℕ)
  unfolding random_bytes
  randstring drawn (pos zero) = ok (none, drawn)
  randstring drawn (pos (suc n)) = ok (some (random_bytes drawn (suc n)), drawn + suc n)
  randstring drawn (negsuc zero) = err out_of_bounds
  randstring drawn (negsuc (suc n)) = ok (none, drawn)

-- The offset of a request. A negative one is not followed further.
unfoldable pub offset_of : ℤ → Result ℕ
offset_of (pos n) = ok n
offset_of (negsuc n) = err out_of_bounds

-- A stream that is open: `file` must be set, and not NULL.
unfoldable pub stream_of : Option ℕ → Result ℕ
stream_of none = err uninitialised
stream_of (some zero) = err null_pointer
stream_of (some (suc address)) = ok (suc address)

-- The block of a call that moves `size` bytes, which may be NULL for none.
unfoldable pub block_of : Option Bytes → ℕ → Result Bytes
block_of (some b) size = ok b
block_of none size = if size == 0 then ok [] else err null_pointer

abbrev pub is_posix : IoLib → Bool
is_posix posix_lib = true
is_posix lib = false

module _ {ℓ} {Client : Type ℓ} (io : Io) (get_io_client : ℕ → Result Client) (rpc : Rpc)
    (num_servers : ℕ) (c : CLibrary) where
  open c use {stdio, malloc, rand}

  -- `file` is not set until the first FOPEN; `drawn` counts the calls of `rand`.
  pub record Replay : Type 0 where
    pub world : World io rpc
    pub files : stdio.State
    pub file : Option ℕ
    pub drawn : ℕ

  -- `fopen` of the file of this rank for writing and reading, emptied.
  unfoldable pub open_file : Bytes → ℤ → Replay → Replay
  open_file filename rank r =
      let opened = stdio.fopen r.files (filename ++ print_ℤ rank) (codes "w+") in
      record r { file = some opened.0; files = opened.1 }

  unfoldable pub seek : ℤ → Replay → Result Replay
  unfolding stream_of
  seek offset r = stream_of r.file >>= λ stream.
      ok (record r { files = (stdio.fseek r.files stream offset 0).1 })

  unfoldable pub run_handler : OpType → LibHandler → Line → Option Bytes → Replay → Result Replay
  unfolding offset_of
  run_handler op h line buffer r = offset_of line.offset >>= λ offset.
      run io get_io_client rpc num_servers op h offset (size_of_int line.request_size) buffer
        r.world
      >>= λ p. ok (record r { world = p.0 })

  unfoldable pub write_posix : Line → Option Bytes → Replay → Result Replay
  unfolding seek stream_of block_of
  write_posix line buffer r = seek line.offset r >>= λ r. stream_of r.file >>= λ stream.
      block_of buffer (size_of_int line.request_size) >>= λ block.
      ok (record r {
        files = (stdio.fwrite r.files block 1 (size_of_int line.request_size) stream).1;
      })

  -- The block that `randstring` made is replaced by a new one.
  unfoldable pub read_posix : Line → Replay → Result Replay
  unfolding seek stream_of
  read_posix line r = seek line.offset r >>= λ r. stream_of r.file >>= λ stream.
      let size = size_of_int line.request_size in
      ok (record r { files = (stdio.fread r.files (malloc (size + 1)) 1 size stream).2 })

  unfoldable pub close_file : Replay → Result Replay
  unfolding stream_of
  close_file r =
      stream_of r.file >>= λ stream. ok (record r { files = (stdio.fclose r.files stream).1 })

  -- One line of `replay_trace`.
  unfoldable pub replay_line : LibHandler → Bytes → ℤ → Line → Replay → Result Replay
  unfolding open_file seek run_handler write_posix read_posix close_file randstring
  replay_line h filename rank line r = elim line.operation [
    | fopen_line ↦ if is_posix h.lib_type then ok (open_file filename rank r) else ok r
    | fclose_line ↦ if is_posix h.lib_type then close_file r else ok r
    | write_line ↦ randstring rand r.drawn line.request_size >>= λ w.
        let r' = record r { drawn = w.1 } in
        if is_posix h.lib_type then write_posix line w.0 r' else run_handler write_op h line w.0 r'
    | read_line ↦ randstring rand r.drawn line.request_size >>= λ w.
        let r' = record r { drawn = w.1 } in
        if is_posix h.lib_type then read_posix line r' else run_handler read_op h line w.0 r'
    | lseek_line ↦ if is_posix h.lib_type then seek line.offset r else ok r
    | other_line ↦ ok r
  ]

  -- The loop over the lines, which a line of fewer than four bytes ends.
  unfoldable pub replay_lines : LibHandler → Bytes → ℤ → List Bytes → Replay → Result Replay
  unfolding replay_line split_line
  replay_lines h filename rank [] r = ok r
  replay_lines h filename rank (line ∷ lines) r =
      let rest = split_line line >>= λ l.
      replay_line h filename rank l r >>= replay_lines h filename rank lines in
      if ltb (length line) 4 then ok r else rest

  -- `replay_trace`, with the trace that is opened in each repetition, less the times that it takes.
  unfoldable pub replay_trace : LibHandler → Bytes → ℤ → Option Bytes → ℕ → Replay → Result Replay
  unfolding replay_lines lines_of
  replay_trace h filename rank none repetitions r = ok r
  replay_trace h filename rank (some trace) zero r = ok r
  replay_trace h filename rank (some trace) (suc repetitions) r =
      replay_lines h filename rank (lines_of trace) r
      >>= replay_trace h filename rank (some trace) repetitions
