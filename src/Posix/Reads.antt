-- ===== src/Posix/Reads.antt =====
-- A read inside a file that is open: the range that is asked for, and what is delivered.
use symbios.Base.{
  ℕ, ◌+◌, ◌*◌, ◌%◌, ◌^◌, ◌<◌, ◌≤◌, ◌≡◌, ◌∙◌, refl, ap, true, false, some, ltb, arith, length, take,
  length-take, ==-true,
}
use symbios.Base.Result.{ok, ◌>>=◌}
use symbios.Base.Text.{Bytes}
use symbios.Base.Memory.{patch, load_lem, store_lem}
use symbios.Objects.{Data, no_data}
use symbios.Client.{Rpc, locate_request}
use symbios.Posix.{PosixStat, find_handle}
use symbios.Posix.Calls.{Stdio, Program, deliver, read_tracked, fread}
use symbios.Posix.Handles.{tracked_found}

same_size : (n : ℕ) → n < 2 ^ 64 → (1 * n) % 2 ^ 64 ≡ n
same_size n h = ground arith

inside :
    (offset n size : ℕ)
    → offset + n ≤ size
    → size < 2 ^ 64
    → ltb size ((offset + n) % 2 ^ 64) ≡ false
inside offset n size fits small = ground arith

abbrev pub range_of : Bytes → ℕ → ℕ → Data
range_of filename position n = record no_data { id = filename; position = position; data_size = n }

-- A reply of the size asked for is copied to the start of the block.
deliver_reply :
    (a : Data) (b block : Bytes) (n : ℕ)
    → a.data_size ≡ n
    → a.buffer ≡ some b
    → n ≤ length b
    → n ≤ length block
    → deliver a n block ≡ ok (n, patch block 0 (take n b))
unfolding deliver
deliver_reply a b block n sized has enough room =
    rw
      (
        ==-true a.data_size n sized,
        has,
        load_lem b 0 n (omega (arith, enough)),
        store_lem block (take n b) 0 (omega (arith, length-take n b, room)),
      )
      refl

module _ (rpc : Rpc) (stdio : Stdio) (num_servers : ℕ) where
  -- A range from the position of the file on, inside it, is asked for and delivered.
  read_tracked-inside :
      (p : Program rpc stdio) (block : Bytes) (n : ℕ) (stat : PosixStat) (a : Data) (s : rpc.State)
      (b : Bytes)
      → stat.file_pointer + n ≤ stat.file_size
      → stat.file_size < 2 ^ 64
      → locate_request rpc num_servers p.servers
          (range_of stat.filename stat.file_pointer n)
          (range_of stat.filename 0 n)
        ≡ ok (a, s)
      → a.data_size ≡ n
      → a.buffer ≡ some b
      → n ≤ length b
      → n ≤ length block
      → read_tracked rpc stdio num_servers (true, stat) p block n
        ≡ ok (n, patch block 0 (take n b), record p { servers = s })
  unfolding read_tracked
  read_tracked-inside p block n stat a s b fits small reply sized has enough room =
      rw (inside stat.file_pointer n stat.file_size fits small, reply)
        (ap (λ q. q >>= λ t. ok (t.0, t.1, record p { servers = s }))
          (deliver_reply a b block n sized has enough room))

  pub fread-inside :
      (p : Program rpc stdio) (block : Bytes) (n stream : ℕ) (stat : PosixStat) (a : Data)
      (s : rpc.State) (b : Bytes)
      → find_handle p.handles stream ≡ some stat
      → stat.file_pointer + n ≤ stat.file_size
      → stat.file_size < 2 ^ 64
      → locate_request rpc num_servers p.servers
          (range_of stat.filename stat.file_pointer n)
          (range_of stat.filename 0 n)
        ≡ ok (a, s)
      → a.data_size ≡ n
      → a.buffer ≡ some b
      → n ≤ length b
      → n ≤ length block
      → fread rpc stdio num_servers p block 1 n stream
        ≡ ok (n, patch block 0 (take n b), record p { servers = s })
  unfolding fread
  fread-inside p block n stream stat a s b found fits small reply sized has enough room =
      let there = tracked_found p.handles stream stat found in
      rw (there.0, there.1)
        (ap (λ m. read_tracked rpc stdio num_servers (true, stat) p block m)
            (same_size n (omega (arith, fits, small)))
          ∙ read_tracked-inside p block n stat a s b fits small reply sized has enough room)
