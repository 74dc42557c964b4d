-- ===== src/FileClient.antt =====
-- src/symbios/io_clients/file_io.cpp: the storage client over a file system.
pub mod AsStorage
use symbios.Base.{
  ℕ, ◌+◌, ◌-◌, ◌≡◌, ◌≢◌, Bool, true, false, Option, none, some, List, [], ◌++◌, ltb, ◌==◌,
  if◌then◌else◌, length, take, drop,
}
use symbios.Base.Result.{
  Result, ok, err, thrown, null_pointer, open_file_failed, seek_file_failed,
  read_data_from_file_failed, write_data_to_file_failed, ◌>>=◌,
}
use symbios.Base.Int.{size_difference}
use symbios.Base.Text.{Bytes}
use symbios.Base.Memory.{load, slice}
use symbios.Objects.{Data}

-- POSIX files. `contents` is what a file holds that `open` opens to be read; `create` is `open` with
-- O_RDWR and O_CREAT; `seeks` says whether `lseek` reaches a place; `write` returns what it wrote, or
-- `none` for -1. `malloc` is the block that an allocation returns.
pub record FileSystem : Type 1 where
  pub State : Type 0
  pub contents : State → Bytes → Option Bytes
  pub create : State → Bytes → Option State
  pub seeks : State → Bytes → ℕ → Bool
  pub write : State → Bytes → ℕ → Bytes → Option ℕ × State
  pub remove : State → Bytes → State
  pub malloc : ℕ → Bytes

-- A file system that does what it is asked: a file that is new is created empty, every place is
-- reached, and a write to the start of an empty file leaves what was written. Other files stay.
pub record IsFileSystem (fs : FileSystem) : Type 0 where
  pub created : fs.State → Bytes → fs.State
  pub creates :
      (s : fs.State) (name : Bytes)
      → (fs.create s name ≡ some (created s name))
        × (fs.contents s name ≡ none → fs.contents (created s name) name ≡ some [])
  pub reaches : (s : fs.State) (name : Bytes) (position : ℕ) → fs.seeks s name position ≡ true
  pub written : fs.State → Bytes → Bytes → fs.State
  pub writes :
      (s : fs.State) (name b : Bytes)
      → fs.contents s name ≡ some []
      → (fs.write s name 0 b ≡ (some (length b), written s name b))
        × (fs.contents (written s name b) name ≡ some b)
  pub keeps :
      (s : fs.State) (name b other : Bytes)
      → other ≢ name
      → (fs.contents (created s name) other ≡ fs.contents s other)
        × (fs.contents (written s name b) other ≡ fs.contents s other)
  pub blocks : (n : ℕ) → length (fs.malloc n) ≡ n

-- `source.buffer_ + source.position_`, for the bytes up to `data_size_`.
unfoldable pub bytes_to_write : Data → Result Bytes
bytes_to_write d = elim d.buffer [
  | none ↦ err null_pointer
  | some b ↦ load b d.position (size_difference d.data_size d.position)
]

module _ (fs : FileSystem) where
  open fs use {State, contents, create, seeks, malloc}

  -- `read` returns what the file has from the position on, up to the size asked for; fewer bytes are
  -- an error. The bytes in front of the destination's position are what `malloc` left there.
  unfoldable pub read_range : Bytes → ℕ → Data → Data → Result Data
  read_range content size source destination =
      let got = take size (drop source.position content) in
      if length got == size
      then ok (record destination {
        buffer = some (take destination.position (malloc (destination.position + size)) ++ got);
        data_size = destination.position + size;
      })
      else err (thrown read_data_from_file_failed)

  unfoldable pub read_by : Option Bytes → State → Data → Data → Result Data
  unfolding read_range
  read_by none s source destination = err (thrown open_file_failed)
  read_by (some content) s source destination =
      if seeks s source.id source.position
      then read_range content
          (if source.data_size == 0
            then size_difference (length content) source.position
            else source.data_size)
          source destination
      else err (thrown seek_file_failed)

  unfoldable pub read : State → Data → Data → Result Data
  unfolding read_by
  read s source destination = read_by (contents s source.id) s source destination

  -- The test compares the answer as a `size_t`, so that -1 is no failure.
  unfoldable pub write_answer : Option ℕ × State → ℕ → Result State
  write_answer (none, s) asked = ok s
  write_answer (some n, s) asked =
      if ltb n asked then err (thrown write_data_to_file_failed) else ok s

  unfoldable pub write_by : Option State → Data → Data → Result State
  unfolding write_answer
  write_by none source destination = err (thrown open_file_failed)
  write_by (some s) source destination =
      if seeks s destination.id destination.position
      then (bytes_to_write source >>= λ b.
          write_answer (fs.write s destination.id destination.position b) (length b))
      else err (thrown seek_file_failed)

  unfoldable pub write : State → Data → Data → Result State
  unfolding write_by
  write s source destination = write_by (create s destination.id) source destination

  unfoldable pub remove : State → Data → Result (Bool × State)
  remove s source = ok (true, fs.remove s source.id)

  unfoldable pub size_by : Option Bytes → ℕ
  size_by none = 0
  size_by (some content) = length content

  unfoldable pub size : State → Data → Result ℕ
  unfolding size_by
  size s source = ok (size_by (contents s source.id))
