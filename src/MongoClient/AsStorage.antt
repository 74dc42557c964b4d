-- ===== src/MongoClient/AsStorage.antt =====
-- A MongoDB collection as a storage of the orchestrator.
use symbios.Base.{
  ◌≡◌, ◌⊎◌, inl, ◌∙◌, refl, ap, true, Option, none, some, [], ◌∷◌, ◌++◌, arith, length, leb, ◌==◌,
  if◌then◌else◌, length-append, drop-all, append-nil,
}
use symbios.Base.Int.{size_difference_zero}
use symbios.Base.Result.{Result, ok, err, ◌>>=◌, >>=_ext}
use symbios.Base.Text.{Bytes}
use symbios.Base.Memory.{load_lem, slice-append, take-length}
use symbios.Objects.{Data, no_data}
use symbios.Storage.{Storage, IsStorage, IsRangeStorage, Missing}
use symbios.RedisClient.{new_value, source_bytes}
use symbios.RedisClient.ReadBack.{written, source_bytes-whole, source_bytes_range}
use symbios.MongoClient.{
  MongoStore, IsMongoStore, copy_out, read_by, read, insert, exists_by, delete_old, write_by, write,
  remove, size,
}

abbrev pub mongo_storage : MongoStore → Storage
mongo_storage m = record {
  State = m.State;
  read = read m;
  write = write m;
  remove = remove m;
  size = size m;
}

module _ (m : MongoStore) (law : IsMongoStore m) where
  -- A value is read whole by size 0 and by its own size.
  read_by-whole :
      (v : Bytes) (q d : Data)
      → q.position ≡ 0
      → (q.data_size ≡ 0) ⊎ (q.data_size ≡ length v)
      → read_by m (some (some v)) q d ≡ ok (record d { buffer = some v; data_size = length v })
  unfolding read_by copy_out
  read_by-whole v q d start whole =
      rw
        (
          asked whole,
          start,
          size_difference_zero (length v),
          load_lem (v ++ (0 ∷ [])) 0 (length v) (omega (arith, length-append v (0 ∷ []))),
          slice-append v (0 ∷ []) 0 (length v) (omega arith),
          take-length v (length v) (omega arith),
          leb-self v,
        )
        (ap (λ b. ok (record d { buffer = some b; data_size = length v }))
          (ap (λ b. v ++ b)
              (drop-all (length v) (m.malloc (length v)) (omega (arith, law.blocks (length v))))
            ∙ append-nil v))
    where
      asked :
          (q.data_size ≡ 0) ⊎ (q.data_size ≡ length v)
          → (if q.data_size == 0 then length v else q.data_size) ≡ length v
      asked h = ground arith

      leb-self : (b : Bytes) → leb (length b) (length b) ≡ true
      leb-self b = ground arith

  -- A key that no read finds has no document.
  Missing-none :
      (s : m.State) (id : Bytes) → Missing (mongo_storage m) s id → m.find_one s id ≡ some none
  unfolding read
  Missing-none s id absent =
      let (o, e) = law.answers s id in
      elim o as (λ o. m.find_one s id ≡ some o → m.find_one s id ≡ some none) [
        | none ↦ λ e. e
        | some v ↦ λ e.
            let (c, h) = absent (whole id) (whole id) refl in
            absurd (
              cc (
                h,
                ap (λ o. read_by m o (whole id) (whole id)) e,
                read_by-whole v (whole id) (whole id) refl (inl refl),
              ))
      ]
        e
    where
      whole : Bytes → Data
      whole k = record no_data { id = k }

  -- The collection after a write over `old`: its document is deleted first.
  abbrev pub after_write : m.State → Bytes → Option Bytes → Bytes → m.State
  after_write s id none v = law.inserted s id v
  after_write s id (some old) v = law.inserted (law.deleted s id) id v

  insert_lem :
      (s : m.State) (k : Bytes) (x : Result Bytes)
      → (x >>= λ v. insert m (m.insert_one s k v)) ≡ (x >>= λ v. ok (law.inserted s k v))
  unfolding insert
  insert_lem s k (ok v) = ap (insert m) (law.inserts s k v).0
  insert_lem s k (err e) = refl

  replace_lem :
      (s : m.State) (k : Bytes) (x : Result Bytes) (f : Bytes → Result Bytes)
      → (x >>= λ b.
          f b >>= λ v. delete_old m (m.delete_many s k) >>= λ t. insert m (m.insert_one t k v))
        ≡ ((x >>= f) >>= λ v. ok (law.inserted (law.deleted s k) k v))
  unfolding insert delete_old
  replace_lem s k (err e) f = refl
  replace_lem s k (ok b) f =
      >>=_ext (f b) (λ v. delete_old m (m.delete_many s k) >>= λ t. insert m (m.insert_one t k v))
        (λ v. ok (law.inserted (law.deleted s k) k v))
        (λ v. rw ((law.deletes s k).0, (law.inserts (law.deleted s k) k v).0))

  -- On a collection that answers, a write stores what `written` makes of the old value, if the key
  -- has one, and of the source; it fails where `written` fails.
  pub write-written :
      (s : m.State) (old : Option Bytes) (source destination : Data)
      → m.find_one s destination.id ≡ some old
      → write m s source destination
        ≡ (written old source destination >>= λ v. ok (after_write s destination.id old v))
  unfolding write read exists_by write_by written
  write-written s none source destination found =
      rw found (insert_lem s destination.id (source_bytes source))
  write-written s (some old) source destination found =
      rw
        (
          found,
          read_by-whole old (record no_data { id = destination.id })
              (record no_data { id = destination.id }) refl (inl refl),
        )
        (replace_lem s destination.id (source_bytes source)
          (λ b. new_value old destination.position b))

  -- On a collection that answers, a write and a read of the whole value in turn return what
  -- `written` makes of the old value, if the key has one, and of the source.
  pub read-replaced :
      (s : m.State) (old : Option Bytes) (source destination request answer : Data) (v : Bytes)
      → m.find_one s destination.id ≡ some old
      → written old source destination ≡ ok v
      → request.id ≡ destination.id
      → request.position ≡ 0
      → (request.data_size ≡ 0) ⊎ (request.data_size ≡ length v)
      → (write m s source destination >>= λ t. read m t request answer)
        ≡ ok (record answer { buffer = some v; data_size = length v })
  unfolding read
  read-replaced s old source destination request answer v found makes same start whole =
      ap (λ x. x >>= λ t. read m t request answer) (write-written s old source destination found)
      ∙ ap
          (λ x.
            (x >>= λ v. ok (after_write s destination.id old v)) >>= λ t. read m t request answer)
          makes
      ∙ ap (λ o. read_by m o request answer)
          (ap (m.find_one (after_write s destination.id old v)) same ∙ there old found)
      ∙ read_by-whole v request answer start whole
    where
      there :
          (old : Option Bytes)
          → m.find_one s destination.id ≡ some old
          → m.find_one (after_write s destination.id old v) destination.id ≡ some (some v)
      there none found = (law.inserts s destination.id v).1 found
      there (some old) found =
          (law.inserts (law.deleted s destination.id) destination.id v).1
            (law.deletes s destination.id).1

  -- A MongoDB collection that answers is a storage as the orchestrator needs it.
  pub mongo_storage-IsStorage : IsStorage (mongo_storage m)
  unfolding read written
  mongo_storage-IsStorage = record {
    after = law.inserted;
    writes = λ s source d b hb hp hs hd absent.
        write-written s none source d (Missing-none s d.id absent)
        ∙ ap (λ x. x >>= λ v. ok (law.inserted s d.id v)) (source_bytes-whole source b hb hp hs);
    holds = λ s id b absent q d same start whole to_start.
        ap (λ o. read_by m o q d)
          (ap (m.find_one (law.inserted s id b)) same
            ∙ (law.inserts s id b).1 (Missing-none s id absent))
        ∙ read_by-whole b q d start whole;
    others = λ s id b q d ne. ap (λ o. read_by m o q d) (law.keeps s id b q.id ne).0;
  }

  -- A MongoDB collection that answers stores ranges of buffers under new keys.
  pub mongo_storage-IsRangeStorage : IsRangeStorage (mongo_storage m)
  unfolding written mongo_storage-IsStorage
  mongo_storage-IsRangeStorage = record {
    whole = mongo_storage-IsStorage;
    ranges = λ s source d b hb fits hd absent.
        write-written s none source d (Missing-none s d.id absent)
        ∙ ap (λ x. x >>= λ v. ok (law.inserted s d.id v)) (source_bytes_range source b hb fits);
  }
