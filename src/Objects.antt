-- ===== src/Objects.antt =====
-- include/symbios/common/data_structure.h and enumerations.h: the data that clients, servers and
-- storage clients pass to each other, and the interface through which storage is reached.
use symbios.Base.{ℕ, Bool, false, Option, none, List, []}
use symbios.Base.Int.{ℤ}
use symbios.Base.Result.{Result}
use symbios.Base.Text.{Bytes}

pub data IoClientType : Type 0 where
  file_io redis_io mongo_io : IoClientType

-- `StorageSolution` and what derives from it: the end point, and for Redis the port, for MongoDB
-- the database and the collection.
pub data StorageSolution : Type 0 where
  file_ss : Bytes → StorageSolution
  redis_ss : Bytes → Bytes → StorageSolution
  mongo_ss : Bytes → Bytes → Bytes → StorageSolution

abbrev pub end_point : StorageSolution → Bytes
end_point (file_ss e) = e
end_point (redis_ss e port) = e
end_point (mongo_ss e database collection) = e

abbrev pub io_client_type : StorageSolution → IoClientType
io_client_type (file_ss e) = file_io
io_client_type (redis_ss e port) = redis_io
io_client_type (mongo_ss e database collection) = mongo_io

-- `Data`. A buffer is the block that it points to; NULL is `none`.
pub record Data : Type 0 where
  pub id : Bytes
  pub position : ℕ
  pub buffer : Option Bytes
  pub data_size : ℕ
  pub storage_index : ℕ

-- `Data()`
abbrev pub no_data : Data
no_data = record { id = []; position = 0; buffer = none; data_size = 0; storage_index = 0 }

pub record DataDistribution : Type 0 where
  pub source_data : Data
  pub destination_data : Data
  pub storage_index : ℕ

-- `Metadata`. The entries of `links_`, each key once.
pub record Metadata : Type 0 where
  pub is_link : Bool
  pub storage_index : ℕ
  pub links : List (ℤ × Data)

abbrev pub no_metadata : Metadata
no_metadata = record { is_link = false; storage_index = 0; links = [] }

-- The storage clients (io.h) behind `IOFactory::GetIOClient`, by storage index. `read` returns the
-- destination with its buffer and size set. What a failed write leaves is not looked at by callers.
pub record Io : Type 1 where
  pub State : Type 0
  pub read : ℕ → State → Data → Data → Result Data
  pub write : ℕ → State → Data → Data → Result State
  pub remove : ℕ → State → Data → Result (Bool × State)
  pub size : ℕ → State → Data → Result ℕ

-- MessagePack (clmdep_msgpack) on `Metadata`.
pub record MsgPack : Type 0 where
  pub pack : Metadata → Bytes
  pub unpack : Bytes → Result Metadata
