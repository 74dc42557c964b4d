-- ===== src/RedisClient/AsStorage.antt =====
-- Redis clusters as storages of the orchestrator.
use symbios.Base.{◌≡◌, ◌⊎◌, inl, ◌∙◌, refl, ap, none, some, arith, length, ◌==◌, if◌then◌else◌}
use symbios.Base.Result.{ok, ◌>>=◌}
use symbios.Base.Text.{Bytes}
use symbios.Base.Memory.{slice, take-length}
use symbios.Objects.{Data, Io, no_data}
use symbios.Orchestrator.Contract.{IsIo}
use symbios.Storage.{Storage, IsStorage, IsRangeStorage, Missing}
use symbios.Storage.Family.{family_io, family_io-IsIo}
use symbios.RedisClient.ReadBack.{
  copy_out_lem, source_bytes-whole, source_bytes_range, write-written, written,
}
use symbios.RedisClient.{copy_out, Redis, IsRedis, read, read_by, write, remove, size}

-- `RedisIOClient` on a cluster.
abbrev pub redis_storage : Redis → Storage
redis_storage r = record {
  State = r.State;
  read = read r;
  write = write r;
  remove = remove r;
  size = size r;
}

-- The clients of a system in which each index has a cluster of its own.
abbrev pub redis_io : Redis → Io
redis_io r = family_io (redis_storage r)

module _ (r : Redis) (law : IsRedis r) where
  open law use {after, accepts, returns, answers}

  -- A value is read whole by size 0 and by its own size.
  read_by-whole :
      (v : Bytes) (q d : Data)
      → q.position ≡ 0
      → (q.data_size ≡ 0) ⊎ (q.data_size ≡ length v)
      → read_by r (some (some v)) q d ≡ ok (record d { buffer = some v; data_size = length v })
  unfolding read_by
  read_by-whole v q d start size =
      ap (λ n. copy_out v n q d) (whole size)
      ∙ copy_out_lem v (length v) q d (omega arith)
      ∙ ap (λ b. ok (record d { buffer = some b; data_size = length v }))
          (ap (λ p. slice p (length v) v) start ∙ take-length v (length v) (omega arith))
    where
      whole :
          (q.data_size ≡ 0) ⊎ (q.data_size ≡ length v)
          → (if q.data_size == 0 then length v else q.data_size) ≡ length v
      whole h = ground arith

  -- A key that no read finds has no value.
  Missing-none :
      (s : r.State) (id : Bytes) → Missing (redis_storage r) s id → r.get s id ≡ some none
  unfolding read
  Missing-none s id absent =
      let (o, e) = answers s id in
      elim o as (λ o. r.get s id ≡ some o → r.get s id ≡ some none) [
        | none ↦ λ e. e
        | some v ↦ λ e.
            let (c, h) = absent (whole id) (whole id) refl in
            absurd (
              cc (
                h,
                ap (λ o. read_by r o (whole id) (whole id)) e,
                read_by-whole v (whole id) (whole id) refl (inl refl),
              ))
      ]
        e
    where
      whole : Bytes → Data
      whole k = record no_data { id = k }

  -- A whole buffer is written under a key that has no value.
  write-new :
      (t : r.State) (source d : Data) (b : Bytes)
      → source.buffer ≡ some b
      → source.position ≡ 0
      → source.data_size ≡ length b
      → r.get t d.id ≡ some none
      → write r t source d ≡ ok (after t d.id b)
  unfolding written
  write-new t source d b hb hp hs none_there =
      write-written r law t none source d none_there
      ∙ ap (λ x. x >>= λ v. ok (after t d.id v)) (source_bytes-whole source b hb hp hs)

  -- A Redis cluster that answers is a storage as the orchestrator needs it.
  pub redis_storage-IsStorage : IsStorage (redis_storage r)
  unfolding read
  redis_storage-IsStorage = record {
    after = after;
    writes = λ s source d b hb hp hs hd absent.
        write-new s source d b hb hp hs (Missing-none s d.id absent);
    holds = λ s id b absent q d same start size to_start.
        ap (λ o. read_by r o q d) (ap (r.get (after s id b)) same ∙ returns s id b)
        ∙ read_by-whole b q d start size;
    others = λ s id b q d ne. ap (λ o. read_by r o q d) (law.keeps s id b q.id ne);
  }

  -- A Redis cluster that answers stores ranges of buffers under new keys.
  pub redis_storage-IsRangeStorage : IsRangeStorage (redis_storage r)
  unfolding written redis_storage-IsStorage
  redis_storage-IsRangeStorage = record {
    whole = redis_storage-IsStorage;
    ranges = λ s source d b hb fits hd absent.
        write-written r law s none source d (Missing-none s d.id absent)
        ∙ ap (λ x. x >>= λ v. ok (after s d.id v)) (source_bytes_range source b hb fits);
  }

  -- Redis clusters that answer are storages as the orchestrator needs them.
  pub redis_io-IsIo : IsIo (redis_io r)
  redis_io-IsIo = family_io-IsIo (redis_storage r) redis_storage-IsStorage
