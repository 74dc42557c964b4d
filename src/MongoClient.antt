-- ===== src/MongoClient.antt =====
-- src/symbios/io_clients/mongo_io.cpp: the storage client over a MongoDB collection (mongocxx),
-- which is the parameter `MongoStore`.
pub mod AsStorage
use symbios.Base.{
  ℕ, ◌+◌, ◌-◌, ◌≡◌, ◌≢◌, Bool, true, false, Option, none, some, List, [], ◌∷◌, ◌++◌, leb, ◌==◌,
  if◌then◌else◌, length, drop,
}
use symbios.Base.Result.{
  Result, ok, err, thrown, foreign, uninitialised, null_pointer, out_of_bounds,
  read_mongodb_data_failed, ◌>>=◌,
}
use symbios.Base.Text.{Bytes}
use symbios.Base.Memory.{load}
use symbios.Objects.{Data, no_data}
use symbios.Base.Int.{size_difference}
use symbios.RedisClient.{new_value, source_bytes}

-- A collection of documents with a `key` and a `value`. The outer `none` is an exception of
-- mongocxx; of an answer to `find_one`, the inner `none` says that there is no document, and of an
-- answer to `insert_one`, `false` says that the write was not acknowledged. `malloc` is the block
-- that an allocation returns.
pub record MongoStore : Type 1 where
  pub State : Type 0
  pub find_one : State → Bytes → Option (Option Bytes)
  pub delete_many : State → Bytes → Option State
  pub insert_one : State → Bytes → Bytes → Option (Bool × State)
  pub malloc : ℕ → Bytes

-- A collection that answers: a document under a key that has none is found, deleted keys are gone,
-- and other keys stay.
pub record IsMongoStore (m : MongoStore) : Type 0 where
  pub blocks : (n : ℕ) → length (m.malloc n) ≡ n
  pub answers : (s : m.State) (k : Bytes) → (o : Option Bytes) × (m.find_one s k ≡ some o)
  pub inserted : m.State → Bytes → Bytes → m.State
  pub inserts :
      (s : m.State) (k v : Bytes)
      → (m.insert_one s k v ≡ some (true, inserted s k v))
        × (m.find_one s k ≡ some none → m.find_one (inserted s k v) k ≡ some (some v))
  pub deleted : m.State → Bytes → m.State
  pub deletes :
      (s : m.State) (k : Bytes)
      → (m.delete_many s k ≡ some (deleted s k)) × (m.find_one (deleted s k) k ≡ some none)
  pub keeps :
      (s : m.State) (k v j : Bytes)
      → j ≢ k
      → (m.find_one (inserted s k v) j ≡ m.find_one s j)
        × (m.find_one (deleted s k) j ≡ m.find_one s j)

module _ (m : MongoStore) where
  open m use {State, find_one, delete_many, insert_one, malloc}

  -- The `memcpy` of `size - position` bytes of a value, which has a NUL behind it, into a block of
  -- `size` bytes.
  unfoldable pub copy_out : Bytes → ℕ → Data → Data → Result Data
  copy_out value size source destination =
      load (value ++ (0 ∷ [])) source.position (size_difference size source.position) >>= λ b.
      if leb (length b) size
      then ok (record destination {
        buffer = some (b ++ drop (length b) (malloc size));
        data_size = size;
      })
      else err out_of_bounds

  unfoldable pub read_by : Option (Option Bytes) → Data → Data → Result Data
  read_by none source destination = err foreign
  read_by (some none) source destination = err (thrown read_mongodb_data_failed)
  read_by (some (some value)) source destination =
      copy_out value (if source.data_size == 0 then length value else source.data_size) source
        destination

  unfoldable pub read : State → Data → Data → Result Data
  unfolding read_by
  read s source destination = read_by (find_one s source.id) source destination

  -- `insert_one`, and the look into its answer.
  unfoldable pub insert : Option (Bool × State) → Result State
  insert none = err foreign
  insert (some (false, s)) = err uninitialised
  insert (some (true, s)) = ok s

  -- What `std::exception` catches: the exceptions of the program and of mongocxx.
  unfoldable pub exists_by : Result Data → Result (Option Data)
  exists_by (ok d) = ok (some d)
  exists_by (err (thrown _)) = ok none
  exists_by (err foreign) = ok none
  exists_by (err e) = err e

  unfoldable pub delete_old : Option State → Result State
  delete_old none = err foreign
  delete_old (some s) = ok s

  unfoldable pub write_by : Option Data → State → Data → Data → Result State
  unfolding insert delete_old
  write_by none s source destination =
      source_bytes source >>= λ v. insert (insert_one s destination.id v)
  write_by (some old) s source destination = old_bytes old.buffer >>= λ old_value.
      source_bytes source >>= λ bytes. new_value old_value destination.position bytes >>= λ v.
      delete_old (delete_many s destination.id) >>= λ t. insert (insert_one t destination.id v)
    where
      old_bytes : Option Bytes → Result Bytes
      old_bytes none = err null_pointer
      old_bytes (some b) = ok b

  unfoldable pub write : State → Data → Data → Result State
  unfolding read exists_by write_by
  write s source destination =
      let request = record no_data { id = destination.id } in
      exists_by (read s request request) >>= λ old. write_by old s source destination

  unfoldable pub remove : State → Data → Result (Bool × State)
  unfolding delete_old
  remove s source = delete_old (delete_many s source.id) >>= λ t. ok (true, t)

  unfoldable pub size_by : Option Data → ℕ
  size_by none = 0
  size_by (some d) = d.data_size

  unfoldable pub size : State → Data → Result ℕ
  unfolding read exists_by size_by
  size s source =
      let request = record no_data { id = source.id } in
      exists_by (read s request request) >>= λ d. ok (size_by d)
