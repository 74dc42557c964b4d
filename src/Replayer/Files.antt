-- ===== src/Replayer/Files.antt =====
-- src/common/include/common/replayer.h, `prepare_data` and `clean_data`: the files that a trace reads
-- are filled before it is replayed, and what it writes is deleted behind it.
use symbios.Base.{ℕ, Option, none, some, List, [], ◌∷◌, ◌++◌, if◌then◌else◌}
use symbios.Base.Int.{ℤ, pos, size_of_int, ltb_ℤ, ◌+ℤ◌}
use symbios.Base.Result.{Result, ok, err, null_pointer, ◌>>=◌}
use symbios.Base.Text.{Bytes, print_ℤ}
use symbios.Objects.{Io}
use symbios.Client.{Rpc}
use symbios.Iris.{write_op, delete_op}
use symbios.Iris.Handler.{LibHandler}
use symbios.Replayer.{
  CLibrary, Replay, write_line, read_line, Line, split_line, lines_of, randstring, stream_of,
  block_of, is_posix, open_file, run_handler,
}

module _ {ℓ} {Client : Type ℓ} (io : Io) (get_io_client : ℕ → Result Client) (rpc : Rpc)
    (num_servers : ℕ) (c : CLibrary) where
  open c use {stdio, malloc, rand}

  -- `max_offset`, the largest end of a request.
  unfoldable pub furthest : ℤ → Line → ℤ
  furthest max_offset line =
      let end = line.offset +ℤ line.request_size in if ltb_ℤ max_offset end then end else max_offset

  -- One line of `prepare_data`: what the trace reads is written first.
  unfoldable pub prepare_line :
      LibHandler
      → Line
      → ℤ
      → Replay io get_io_client rpc num_servers c
      → Result (ℤ × Replay io get_io_client rpc num_servers c)
  unfolding run_handler furthest randstring
  prepare_line h line max_offset r = elim line.operation [
    | read_line ↦ randstring rand r.drawn line.request_size >>= λ w.
        let r' = record r { drawn = w.1 } in
        if is_posix h.lib_type
        then ok (furthest max_offset line, r')
        else (run_handler io get_io_client rpc num_servers c write_op h line w.0 r' >>= λ r''.
            ok (max_offset, r''))
    | _ ↦ ok (max_offset, r)
  ]

  unfoldable pub prepare_lines :
      LibHandler
      → List Bytes
      → ℤ
      → Replay io get_io_client rpc num_servers c
      → Result (ℤ × Replay io get_io_client rpc num_servers c)
  unfolding split_line prepare_line
  prepare_lines h [] max_offset r = ok (max_offset, r)
  prepare_lines h (line ∷ lines) max_offset r =
      split_line line >>= λ l. prepare_line h l max_offset r >>= λ p. prepare_lines h lines p.0 p.1

  -- The file of this rank, with as many bytes as the trace reads.
  unfoldable pub fill_file :
      Bytes
      → ℤ
      → ℤ × Replay io get_io_client rpc num_servers c
      → Result (Replay io get_io_client rpc num_servers c)
  unfolding open_file stream_of block_of randstring
  fill_file filename rank (max_offset, r) = randstring rand r.drawn max_offset >>= λ w.
      let r' =
        open_file io get_io_client rpc num_servers c filename rank (record r { drawn = w.1 }) in
      stream_of r'.file >>= λ stream. block_of w.0 (size_of_int max_offset) >>= λ block.
      ok (record r' { files = (stdio.fwrite r'.files block 1 (size_of_int max_offset) stream).1 })

  -- The trace is read without a test that it is there.
  unfoldable pub prepare_data :
      LibHandler
      → Bytes
      → ℤ
      → Option Bytes
      → Replay io get_io_client rpc num_servers c
      → Result (Replay io get_io_client rpc num_servers c)
  unfolding prepare_lines fill_file lines_of
  prepare_data h filename rank none r = err null_pointer
  prepare_data h filename rank (some trace) r = prepare_lines h (lines_of trace) (pos 0) r >>= λ p.
      if is_posix h.lib_type then fill_file filename rank p else ok p.1

  -- One line of `clean_data`: what the trace writes is deleted.
  unfoldable pub clean_line :
      LibHandler
      → Line
      → Replay io get_io_client rpc num_servers c
      → Result (Replay io get_io_client rpc num_servers c)
  unfolding run_handler
  clean_line h line r = elim line.operation [
    | write_line ↦
        if is_posix h.lib_type
        then ok r
        else run_handler io get_io_client rpc num_servers c delete_op h line none r
    | _ ↦ ok r
  ]

  unfoldable pub clean_lines :
      LibHandler
      → List Bytes
      → Replay io get_io_client rpc num_servers c
      → Result (Replay io get_io_client rpc num_servers c)
  unfolding split_line clean_line
  clean_lines h [] r = ok r
  clean_lines h (line ∷ lines) r = split_line line >>= λ l. clean_line h l r >>= clean_lines h lines

  unfoldable pub clean_data :
      LibHandler
      → Bytes
      → ℤ
      → Option Bytes
      → Replay io get_io_client rpc num_servers c
      → Result (Replay io get_io_client rpc num_servers c)
  unfolding clean_lines lines_of
  clean_data h filename rank none r = err null_pointer
  clean_data h filename rank (some trace) r = clean_lines h (lines_of trace) r >>= λ r.
      if is_posix h.lib_type
      then ok (record r { files = c.remove r.files (filename ++ print_ℤ rank) })
      else ok r
