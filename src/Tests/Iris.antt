-- ===== src/Tests/Iris.antt =====
-- The emulated Iris on small files: over a Redis cluster and over files.
use symbios.Base.{ℕ, ◌≡◌, refl, false, some, List, [], ◌∷◌, arith}
use symbios.Base.Result.{ErrorCode, ok, err, thrown, out_of_bounds, ◌>>=◌}
use symbios.Base.Text.{Bytes, codes}
use symbios.Objects.{Data, Io, no_data, redis_io, file_io}
use symbios.Storage.{Missing}
use symbios.RedisClient
use symbios.RedisClient.AsStorage.{redis_storage, redis_storage-IsRangeStorage}
use symbios.FileClient.AsStorage.{file_storage}
use symbios.IoFactory.{get_io_client, find_solution, client_by, slot}
use symbios.Iris.{iris_lib, DataDescriptor, DataMapper, map_objects}
use symbios.Iris.Mapped.{Mapped, map_objects-Mapped}
use symbios.Iris.Handler.{LibHandler, World, do_mapped_write, do_mapped_read}
use symbios.Iris.Ranges.{HoldFrom, SameBelow, object_id}
use symbios.Iris.Stored.{do_mapped_write-HoldFrom}
use symbios.Iris.Overrun.{shared_io, do_mapped_write_outside}
use symbios.Iris.Unread.{do_mapped_write-read_unread}
use symbios.Tests.Clients.{backends, solutions, first_index}
use symbios.Tests.Doubles.{list_redis, list_redis-IsRedis, find_value}
use symbios.Tests.Doubles.Files.{list_files, list_files-IsFileSystem}
use symbios.Tests.Doubles.Programs.{one_file_rpc}

abbrev mapper : DataMapper
mapper = record { storage_type = 1; max_obj_size = 4 }

abbrev range : DataDescriptor
range = record { id = codes "f"; position = 3; size = 9; chunk_index = 0 }

map_objects-Mapped_example : Mapped 4 (codes "f") 9 3 (map_objects mapper range)
map_objects-Mapped_example = map_objects-Mapped mapper range (omega arith)

abbrev pieces : List DataDescriptor
pieces =
    record { id = codes "f0"; position = 3; size = 1; chunk_index = 0 }
    ∷ record { id = codes "f1"; position = 0; size = 4; chunk_index = 1 }
    ∷ record { id = codes "f2"; position = 0; size = 4; chunk_index = 2 }
    ∷ []

abbrev request : Data
request = record no_data { id = codes "f"; position = 3; data_size = 9 }

abbrev handler : ℕ → LibHandler
handler i = record {
  lib_type = iris_lib;
  db_type = i;
  max_obj_size = 4;
  print_p = false;
  file = codes "f";
}

abbrev redis : Io
redis = shared_io (redis_storage list_redis)

abbrev redis_world : World redis one_file_rpc
redis_world = record { storage = []; servers = 0; output = [] }

abbrev ten_bytes : Bytes
ten_bytes = codes "abcdefghij"

nothing_there : (id : Bytes) → Missing (redis_storage list_redis) [] id
unfolding RedisClient.read RedisClient.read_by find_value
nothing_there id q d is = (_, refl)

do_mapped_write-HoldFrom_example :
    (t : List (Bytes × Bytes)) × (do_mapped_write redis
        (get_io_client backends first_index solutions)
        one_file_rpc
        2
        (handler 1)
        8
        10
        (some ten_bytes)
        redis_world
      ≡ ok (record redis_world { storage = t }))
    × HoldFrom redis 1 4 (codes "f") ten_bytes t 2 0 10
    × SameBelow redis 1 4 (codes "f") ten_bytes [] t 2
unfolding get_io_client find_solution client_by slot
do_mapped_write-HoldFrom_example =
    do_mapped_write-HoldFrom redis (get_io_client backends first_index solutions) one_file_rpc 2
      (handler 1) (redis_storage-IsRangeStorage list_redis list_redis-IsRedis) (omega arith)
      ten_bytes 8 redis_world (redis_io, 1) refl refl (omega arith) (omega arith)
      (λ j h. nothing_there (object_id (codes "f") j))

abbrev files_world : World (shared_io (file_storage list_files)) one_file_rpc
files_world = record { storage = []; servers = 0; output = [] }

do_mapped_write_outside_example :
    do_mapped_write
      (shared_io (file_storage list_files))
      (get_io_client backends first_index solutions)
      one_file_rpc
      2
      (handler 0)
      0
      6
      (some (codes "abcdef"))
      files_world
    ≡ err out_of_bounds
unfolding get_io_client find_solution client_by slot find_value
do_mapped_write_outside_example =
    do_mapped_write_outside list_files list_files-IsFileSystem
      (get_io_client backends first_index solutions) one_file_rpc 2 (handler 0) (codes "abcdef") 0
      files_world (file_io, 0) refl refl (omega arith) (omega arith) (omega arith) refl

do_mapped_write-read_unread_example :
    (t : List (Bytes × Bytes)) × ((do_mapped_write redis
          (get_io_client backends first_index solutions)
          one_file_rpc
          2
          (handler 1)
          8
          10
          (some ten_bytes)
          redis_world
        >>= do_mapped_read redis
            (get_io_client backends first_index solutions)
            one_file_rpc
            2
            (handler 1)
            8
            10
            (some (codes "..........")))
      ≡ ok (record redis_world { storage = t }, some (codes "..........")))
    × HoldFrom redis 1 4 (codes "f") ten_bytes t 2 0 10
    × (c : ErrorCode) × (do_mapped_read redis
          (get_io_client backends first_index solutions)
          one_file_rpc
          2
          (handler 1)
          8
          10
          (some (codes ".........."))
          redis_world
        ≡ err (thrown c))
unfolding get_io_client find_solution client_by slot
do_mapped_write-read_unread_example =
    do_mapped_write-read_unread redis (get_io_client backends first_index solutions) one_file_rpc 2
      (handler 1) (redis_storage-IsRangeStorage list_redis list_redis-IsRedis) (omega arith)
      ten_bytes 8 redis_world (redis_io, 1) (some (codes "..........")) refl refl refl (omega arith)
      (omega arith) (omega arith) (λ j h. nothing_there (object_id (codes "f") j))
