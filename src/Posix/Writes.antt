-- ===== src/Posix/Writes.antt =====
-- What `fwrite` leaves of what is known of the open files, and when it refuses.
use symbios.Base.{
  ℕ, ◌+◌, ◌*◌, ◌%◌, ◌^◌, ◌<◌, ◌≡◌, refl, ap, Bool, true, false, some, ltb, if◌then◌else◌, arith,
}
use symbios.Base.Result.{Result, ok, ◌>>=◌, >>=_inv}
use symbios.Base.Text.{Bytes}
use symbios.Base.Memory.{load}
use symbios.Objects.{Data, no_data}
use symbios.Client.{Rpc, store_request}
use symbios.Posix.{PosixStat, Handles, find_handle, is_file_descriptor_tracked, get_stat}
use symbios.Posix.Calls.{Stdio, Program, minus_one, grown, write_tracked, fwrite}
use symbios.Posix.Handles.{tracked_found}

grown_lem :
    (stat : PosixStat) (handles : Handles) (stream n : ℕ)
    → ltb stat.file_size ((stat.file_pointer + n) % 2 ^ 64) ≡ false
    → grown stat handles stream n ≡ handles
unfolding grown
grown_lem stat handles stream n fits = rw (swap n stat.file_pointer, fits)
  where
    swap : (a b : ℕ) → (a + b) % 2 ^ 64 ≡ (b + a) % 2 ^ 64
    swap a b = ap (λ x. x % 2 ^ 64) (omega arith)

positive : (x : ℕ) → 0 < x % 2 ^ 64 → ltb 0 ((0 + x % 2 ^ 64) % 2 ^ 64) ≡ true
positive x h = ground arith

module _ (rpc : Rpc) (stdio : Stdio) (num_servers : ℕ) where
  write_tracked-handles :
      (t : Bool × PosixStat) (p q : Program rpc stdio) (block : Bytes) (n stream m : ℕ)
      → write_tracked rpc stdio num_servers t p block n stream ≡ ok (m, q)
      → q.handles ≡ p.handles
  unfolding write_tracked
  write_tracked-handles (false, stat) p q block n stream m ends = cc
  write_tracked-handles (true, stat) p q block n stream m ends =
      by (ltb stat.file_size ((stat.file_pointer + n) % 2 ^ 64)) refl ends
    where
      destination : Data
      destination = record no_data {
        id = stat.filename;
        position = stat.file_pointer;
        data_size = n;
      }

      stored : rpc.State → Result (ℕ × Program rpc stdio)
      stored s = ok (n, record p { servers = s; handles = grown stat p.handles stream n })

      request : Bytes → Result rpc.State
      request bytes =
          store_request rpc num_servers p.servers
            (record destination { position = 0; buffer = some bytes }) destination

      by :
          (b : Bool)
          → ltb stat.file_size ((stat.file_pointer + n) % 2 ^ 64) ≡ b
          → (if b
              then ok (minus_one, p)
              else (load block 0 n >>= λ bytes. request bytes >>= stored))
            ≡ ok (m, q)
          → q.handles ≡ p.handles
      by true refused ends = cc
      by false fits ends =
          let (bytes, loads, rest) =
            >>=_inv (load block 0 n) (λ bytes. request bytes >>= stored) (m, q) ends in
          let (s, replies, same) = >>=_inv (request bytes) stored (m, q) rest in
          cc (same, grown_lem stat p.handles stream n fits)

  -- A write that returns, be it to an intercepted file or not, leaves what is known of every open
  -- file as it was, its size and its position among that.
  pub fwrite-handles :
      (p q : Program rpc stdio) (block : Bytes) (size count stream n : ℕ)
      → fwrite rpc stdio num_servers p block size count stream ≡ ok (n, q)
      → q.handles ≡ p.handles
  unfolding fwrite
  fwrite-handles p q block size count stream n ends =
      by (is_file_descriptor_tracked p.handles stream) ends
    where
      total : ℕ
      total = (size * count) % 2 ^ 64

      by :
          (b : Bool)
          → (if b
              then write_tracked rpc stdio num_servers
                  (get_stat p.handles stream)
                  p
                  block
                  total
                  stream
              else (let r = stdio.fwrite p.files block size count stream in
                  ok (r.0, record p { files = r.1 })))
            ≡ ok (n, q)
          → q.handles ≡ p.handles
      by true ends = write_tracked-handles (get_stat p.handles stream) p q block total stream n ends
      by false ends = cc

  -- A position that an open file without content can have, and a range of at least one byte there.
  pub fwrite-empty :
      (p : Program rpc stdio) (block : Bytes) (size count stream : ℕ) (stat : PosixStat)
      → find_handle p.handles stream ≡ some stat
      → stat.file_size ≡ 0
      → stat.file_pointer ≡ 0
      → 0 < (size * count) % 2 ^ 64
      → fwrite rpc stdio num_servers p block size count stream ≡ ok (minus_one, p)
  unfolding fwrite write_tracked
  fwrite-empty p block size count stream stat found empty start some_bytes = rw (
    (tracked_found p.handles stream stat found).0,
    (tracked_found p.handles stream stat found).1,
    refused,
  )
    where
      refused : ltb stat.file_size ((stat.file_pointer + (size * count) % 2 ^ 64) % 2 ^ 64) ≡ true
      refused = rw (empty, start) (positive (size * count) some_bytes)
