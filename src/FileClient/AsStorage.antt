-- ===== src/FileClient/AsStorage.antt =====
-- A file system as a storage of the orchestrator.
use symbios.Base.{
  ◌≡◌, ◌⊎◌, inl, ◌∙◌, refl, ap, false, Option, none, some, arith, length, ltb, ◌==◌, ==-true,
  if◌then◌else◌,
}
use symbios.Base.Result.{ok}
use symbios.Base.Int.{size_difference, size_difference_zero}
use symbios.Base.Text.{Bytes}
use native.Mathlib.Nat.{zero-add}
use symbios.Base.Memory.{load_lem, take-length}
use symbios.Objects.{Data, no_data}
use symbios.Storage.{Storage, IsStorage, Missing}
use symbios.FileClient.{
  FileSystem, IsFileSystem, bytes_to_write, read_range, read_by, read, write_answer, write_by,
  write, remove, size,
}

abbrev pub file_storage : FileSystem → Storage
file_storage fs = record {
  State = fs.State;
  read = read fs;
  write = write fs;
  remove = remove fs;
  size = size fs;
}

module _ (fs : FileSystem) (law : IsFileSystem fs) where
  -- A file is read whole by size 0 and by its own size, to the start of the destination.
  read_by-whole :
      (s : fs.State) (b : Bytes) (q d : Data)
      → q.position ≡ 0
      → (q.data_size ≡ 0) ⊎ (q.data_size ≡ length b)
      → d.position ≡ 0
      → read_by fs (some b) s q d ≡ ok (record d { buffer = some b; data_size = length b })
  unfolding read_by read_range
  read_by-whole s b q d start whole to_start = rw (
    law.reaches s q.id q.position,
    asked whole,
    start,
    to_start,
    take-length b (length b) (omega arith),
    ==-true (length b) (length b) refl,
    zero-add (length b),
  )
    where
      asked :
          (q.data_size ≡ 0) ⊎ (q.data_size ≡ length b)
          → (if q.data_size == 0 then size_difference (length b) q.position else q.data_size)
            ≡ length b
      asked h = ground arith

  Missing-none :
      (s : fs.State) (id : Bytes) → Missing (file_storage fs) s id → fs.contents s id ≡ none
  unfolding read
  Missing-none s id absent =
      elim (fs.contents s id) as (λ o. fs.contents s id ≡ o → fs.contents s id ≡ none) [
        | none ↦ λ e. e
        | some b ↦ λ e.
            let (c, h) = absent (whole id) (whole id) refl in
            absurd (
              cc (
                h,
                ap (λ o. read_by fs o s (whole id) (whole id)) e,
                read_by-whole s b (whole id) (whole id) refl (inl refl) refl,
              ))
      ]
        refl
    where
      whole : Bytes → Data
      whole k = record no_data { id = k }

  ltb_self : (b : Bytes) → ltb (length b) (length b) ≡ false
  ltb_self b = ground arith

  -- A whole buffer is written to a file that is not there.
  write-new :
      (s : fs.State) (source d : Data) (b : Bytes)
      → source.buffer ≡ some b
      → source.position ≡ 0
      → source.data_size ≡ length b
      → d.position ≡ 0
      → fs.contents s d.id ≡ none
      → write fs s source d ≡ ok (law.written (law.created s d.id) d.id b)
  unfolding write write_by write_answer bytes_to_write
  write-new s source d b hb hp hs hd none_there = rw (
    (law.creates s d.id).0,
    law.reaches (law.created s d.id) d.id d.position,
    hb,
    hp,
    hs,
    size_difference_zero (length b),
    load_lem b 0 (length b) (omega arith),
    take-length b (length b) (omega arith),
    hd,
    (law.writes (law.created s d.id) d.id b ((law.creates s d.id).1 none_there)).0,
    ltb_self b,
  )

  seeks_alike :
      (o : Option Bytes) (s t : fs.State) (q d : Data) → read_by fs o t q d ≡ read_by fs o s q d
  unfolding read_by
  seeks_alike none s t q d = refl
  seeks_alike (some b) s t q d = rw (law.reaches t q.id q.position, law.reaches s q.id q.position)

  -- A file system that does what it is asked is a storage as the orchestrator needs it.
  pub file_storage-IsStorage : IsStorage (file_storage fs)
  unfolding read
  file_storage-IsStorage = record {
    after = λ s id b. law.written (law.created s id) id b;
    writes = λ s source d b hb hp hs hd absent.
        write-new s source d b hb hp hs hd (Missing-none s d.id absent);
    holds = λ s id b absent q d same start whole to_start.
        let t = law.written (law.created s id) id b in
        let none_there = (law.creates s id).1 (Missing-none s id absent) in
        ap (λ o. read_by fs o t q d)
          (ap (fs.contents t) same ∙ (law.writes (law.created s id) id b none_there).1)
        ∙ read_by-whole t b q d start whole to_start;
    others = λ s id b q d ne.
        let t = law.written (law.created s id) id b in
        ap (λ o. read_by fs o t q d)
          ((law.keeps (law.created s id) id b q.id ne).1 ∙ (law.keeps s id b q.id ne).0)
        ∙ seeks_alike (fs.contents s q.id) s t q d;
  }
