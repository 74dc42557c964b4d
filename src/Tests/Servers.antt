-- ===== src/Tests/Servers.antt =====
-- A server over a file system, a Redis cluster and a MongoDB collection.
use mathlib.Core.Path.{subst}
use symbios.Base.{ℕ, ◌+◌, ◌^◌, ◌<◌, ◌≡◌, ◌⊎◌, inl, inr, refl, sym, some, none, List, [], ◌∷◌, arith}
use symbios.Base.Result.{ok, open_file_failed, read_redis_data_failed, read_mongodb_data_failed}
use symbios.Base.Text.{Bytes, codes}
use symbios.Objects.{Data, Io, file_io, redis_io, mongo_io}
use symbios.Orchestrator.{meta_id}
use symbios.Orchestrator.Contract.{Absent, IsIo, Among, Distinct}
use symbios.Distribution.{round_robin_policy, distribute, modulo_size, place}
use symbios.FileClient
use symbios.RedisClient
use symbios.MongoClient
use symbios.IoFactory.{
  Stores, storage_of, factory_io, find_solution, client_by, get_io_client, slot,
}
use symbios.IoFactory.AsIo
use symbios.Server
use symbios.Server.StoreLocate
use symbios.Client.{store_request, locate_request}
use symbios.Server.Bound.{Cluster, server_rpc}
use symbios.Server.Bound.EndToEnd
use symbios.Tests.Clients.{backends, solutions, first_index, solutions-Separate}
use symbios.Tests.Doubles.{find_value, list_redis-IsRedis}
use symbios.Tests.Doubles.Files.{list_files-IsFileSystem, list_mongo-IsMongoStore}
use symbios.Tests.Doubles.Codec.{list_codec, list_codec-IsMsgPack}

abbrev io : Io
io = factory_io backends first_index solutions

io-IsIo : IsIo io
io-IsIo =
    AsIo.factory_io-IsIo backends list_files-IsFileSystem list_redis-IsRedis list_mongo-IsMongoStore
      first_index solutions solutions-Separate

unfoldable empty : Stores backends
unfolding storage_of
empty file_io i = []
empty redis_io i = []
empty mongo_io i = []

empty_files : (id : Bytes) → Absent io empty 0 id
unfolding empty get_io_client find_solution client_by slot storage_of FileClient.read
    FileClient.read_by find_value
empty_files id q d e = (open_file_failed, refl)

empty_redis : (id : Bytes) → Absent io empty 1 id
unfolding empty get_io_client find_solution client_by slot storage_of RedisClient.read
    RedisClient.read_by find_value
empty_redis id q d e = (read_redis_data_failed, refl)

empty_mongo : (id : Bytes) → Absent io empty 2 id
unfolding empty get_io_client find_solution client_by slot storage_of MongoClient.read
    MongoClient.read_by find_value
empty_mongo id q d e = (read_mongodb_data_failed, refl)

empty-Absent : (id : Bytes) (j : ℕ) → (j ≡ 0) ⊎ Among j (0 ∷ 1 ∷ 2 ∷ []) → Absent io empty j id
empty-Absent id j (inl e) = subst (λ k. Absent io empty k id) (sym e) (empty_files id)
empty-Absent id j (inr (inl e)) = subst (λ k. Absent io empty k id) (sym e) (empty_files id)
empty-Absent id j (inr (inr (inl e))) = subst (λ k. Absent io empty k id) (sym e) (empty_redis id)
empty-Absent id j (inr (inr (inr (inl e)))) =
    subst (λ k. Absent io empty k id) (sym e) (empty_mongo id)
empty-Absent id j (inr (inr (inr (inr e)))) = absurd e

-- Five bytes go to the Redis cluster, in segments of at most eight; the metadata is with the files.
abbrev indices : List ℕ
indices = 0 ∷ 1 ∷ 2 ∷ []

indices-Distinct : Distinct indices
indices-Distinct = omega arith

five_bytes-Absent : Absent io empty 1 (codes "a0")
five_bytes-Absent = empty_redis (codes "a0")

store-locate_example :
    (s' : io.State) × (Server.store io list_codec 8 indices round_robin_policy 0 4 solutions 1 empty
        (record {
          id = codes "a";
          position = 0;
          buffer = some (codes "bytes");
          data_size = 5;
          storage_index = 0;
        })
        (record { id = codes "a"; position = 0; buffer = none; data_size = 5; storage_index = 0 })
      ≡ ok (1, s'))
    × ((j n : ℕ) (answer : Data)
        → (j ≡ 0) ⊎ Among j indices
        → (n ≡ 0) ⊎ (n ≡ 5)
        → Server.locate io list_codec 8 indices s'
            (record {
              id = codes "a";
              position = 0;
              buffer = none;
              data_size = n;
              storage_index = j;
            })
            answer
          ≡ ok (record answer { buffer = some (codes "bytes") }))
unfolding distribute modulo_size place
store-locate_example =
    StoreLocate.store-locate io io-IsIo list_codec list_codec-IsMsgPack 8 indices (omega arith)
      indices-Distinct (codes "a") (codes "bytes") 0 1 empty (omega arith)
      (empty-Absent (meta_id (codes "a"))) five_bytes-Absent round_robin_policy 0 4 solutions 1 refl

-- The same bytes from a client, with two servers.
abbrev one_cluster : Cluster io
one_cluster = record { drawn = 0; stores = empty }

abbrev of_request : ℕ → Data
of_request j = record {
  id = codes "a";
  position = 0;
  buffer = none;
  data_size = 5;
  storage_index = j;
}

store-locate_request_example :
    (s' : Cluster io) × (store_request
        (server_rpc io list_codec 8 indices round_robin_policy (λ c. c) (λ c. c) solutions 1)
        2
        one_cluster
        (record (of_request 0) { buffer = some (codes "bytes") })
        (of_request 0)
      ≡ ok s')
    × ((j : ℕ)
        → (j ≡ 0) ⊎ Among j indices
        → j < 2 ^ 16
        → locate_request
            (server_rpc io list_codec 8 indices round_robin_policy (λ c. c) (λ c. c) solutions 1)
            2
            s'
            (of_request j)
            (of_request j)
          ≡ ok (
            record (of_request j) { buffer = some (codes "bytes") },
            record s' { drawn = s'.drawn + 1 },
          ))
unfolding distribute modulo_size place
store-locate_request_example =
    EndToEnd.store-locate_request io io-IsIo list_codec list_codec-IsMsgPack 8 indices (omega arith)
      indices-Distinct round_robin_policy (λ c. c) (λ c. c) solutions 1 2 (omega arith) (codes "a")
      (codes "bytes") 0 1 one_cluster (omega arith) (omega arith) (omega arith) (omega arith)
      (empty-Absent (meta_id (codes "a"))) five_bytes-Absent refl
