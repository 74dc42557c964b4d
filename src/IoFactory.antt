-- ===== src/IoFactory.antt =====
-- src/symbios/io_clients/io_factory.h and io.h: the clients of the configured storage solutions, as
-- one interface to the storage, by storage index.
pub mod AsIo
pub mod Setup
use symbios.Base.{ℕ, ◌≡◌, ◌≢◌, ◌⊎◌, Bool, Option, none, some, List, [], ◌∷◌, ◌==◌, if◌then◌else◌}
use symbios.Base.Result.{Result, ok, err, thrown, null_pointer, invalid_storage_index, ◌>>=◌}
use symbios.Base.Text.{Bytes}
use symbios.Objects.{Data, Io, IoClientType, file_io, redis_io, mongo_io}
use symbios.Distribution.{Solutions}
use symbios.Storage.{Storage}
use symbios.Storage.Family.{update}
use symbios.FileClient.{FileSystem}
use symbios.FileClient.AsStorage.{file_storage}
use symbios.RedisClient.{Redis}
use symbios.RedisClient.AsStorage.{redis_storage}
use symbios.MongoClient.{MongoStore}
use symbios.MongoClient.AsStorage.{mongo_storage}

-- What the clients reach: one file system, and the clusters and collections.
pub record Backends : Type 1 where
  pub files : FileSystem
  pub redis : Redis
  pub mongo : MongoStore

unfoldable pub find_solution : Solutions → ℕ → Option IoClientType
find_solution [] i = none
find_solution ((j, t) ∷ solutions) i =
    let rest = find_solution solutions i in if j == i then some t else rest

-- `IOClient::IOClient`
unfoldable pub client_solution : Solutions → ℕ → Result IoClientType
unfolding find_solution
client_solution solutions i = elim (find_solution solutions i) [
  | some t ↦ ok t
  | none ↦ err (thrown invalid_storage_index)
]

module _ (b : Backends) where
  -- The client of a kind.
  unfoldable pub storage_of : IoClientType → Storage
  storage_of file_io = file_storage b.files
  storage_of redis_io = redis_storage b.redis
  storage_of mongo_io = mongo_storage b.mongo

  -- The state of the storage that each client reaches: the one at index 0 is the file system.
  abbrev pub Stores : Type 0
  Stores = (t : IoClientType) → ℕ → (storage_of t).State

  unfoldable pub put_state : Stores → (t : IoClientType) → ℕ → (storage_of t).State → Stores
  unfolding storage_of
  put_state s file_io k x file_io = update (s file_io) k x
  put_state s redis_io k x redis_io = update (s redis_io) k x
  put_state s mongo_io k x mongo_io = update (s mongo_io) k x
  put_state s t k x u = s u

  -- `instance` gives the index that the client was made with, which `Singleton::GetInstance` returns
  -- for a kind and an index. All clients of files share one file system.
  module _ (instance : IoClientType → ℕ → ℕ) (solutions : Solutions) where
    unfoldable pub slot : IoClientType → ℕ → ℕ
    slot file_io i = 0
    slot t i = instance t i

    unfoldable pub client_by : Option IoClientType → ℕ → Result (IoClientType × ℕ)
    unfolding slot
    client_by none i = err null_pointer
    client_by (some t) i = ok (t, slot t i)

    -- `IOFactory::GetIOClient`. An index that is not configured finds a null pointer.
    unfoldable pub get_io_client : ℕ → Result (IoClientType × ℕ)
    unfolding client_by
    get_io_client i = client_by (find_solution solutions i) i

    -- `Read`, `Write`, `Remove` and `Size` of the client of an index.
    abbrev pub factory_io : Io
    factory_io = record {
      State = Stores;
      read = λ i s source d. get_io_client i >>= λ c. (storage_of c.0).read (s c.0 c.1) source d;
      write = λ i s source d. get_io_client i >>= λ c.
          (storage_of c.0).write (s c.0 c.1) source d >>= λ x. ok (put_state s c.0 c.1 x);
      remove = λ i s source. get_io_client i >>= λ c.
          (storage_of c.0).remove (s c.0 c.1) source >>= λ p. ok (p.0, put_state s c.0 c.1 p.1);
      size = λ i s source. get_io_client i >>= λ c. (storage_of c.0).size (s c.0 c.1) source;
    }

    -- No two configured indices share a place where they store: their clients are of different
    -- kinds, or were made with different indices, and are not both of files.
    abbrev pub Separate : Type 0
    Separate =
        (i j : ℕ) (c e : IoClientType × ℕ)
        → get_io_client i ≡ ok c
        → get_io_client j ≡ ok e
        → j ≢ i
        → (e.0 ≢ c.0) ⊎ (e.1 ≢ c.1)
