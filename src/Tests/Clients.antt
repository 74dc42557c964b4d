-- ===== src/Tests/Clients.antt =====
-- The storage clients, their factory and the packing of requests at small inputs.
use symbios.Base.{
  ℕ, ◌≡◌, inl, ◌∙◌, sym, ap, refl, Bool, true, false, ◌==◌, ==_iff, if◌then◌else◌, none, some, List,
  [], ◌∷◌, arith,
}
use symbios.Base.Int.{pos}
use symbios.Base.Result.{ok, ◌>>=◌}
use symbios.Base.Text.{Bytes, codes}
use symbios.Objects.{Data, Metadata, no_data, IoClientType, file_io, redis_io, mongo_io}
use symbios.Orchestrator.Contract
use symbios.Distribution.{Solutions}
use symbios.IoFactory.{
  Backends, factory_io, Separate, find_solution, client_by, get_io_client, slot,
}
use symbios.IoFactory.AsIo
use symbios.Packing.{pack_metadata, convert_metadata}
use symbios.Packing.RoundTrip
use symbios.Tests.Doubles.{list_redis, list_redis-IsRedis}
use symbios.Tests.Doubles.Files.{
  list_files, list_files-IsFileSystem, list_mongo, list_mongo-IsMongoStore,
}

-- A write of two bytes over a value of six.
abbrev old_state : List (Bytes × Bytes)
old_state = (codes "k", codes "abcdef") ∷ []

abbrev two_bytes : Data
two_bytes = record no_data { buffer = some (codes "XY"); data_size = 2 }

abbrev mongo_place : Data
mongo_place = record no_data { id = codes "k"; position = 2 }

abbrev pub backends : Backends
backends = record { files = list_files; redis = list_redis; mongo = list_mongo }

abbrev pub solutions : Solutions
solutions = (0, file_io) ∷ (1, redis_io) ∷ (2, mongo_io) ∷ []

-- Each kind has one client, made with the first index of its kind.
abbrev pub first_index : IoClientType → ℕ → ℕ
first_index file_io i = 0
first_index redis_io i = 1
first_index mongo_io i = 2

abbrev index_of : IoClientType → ℕ
index_of file_io = 0
index_of redis_io = 1
index_of mongo_io = 2

inject : {c d : IoClientType × ℕ} → ok c ≡ ok d → c ≡ d
inject e = cc e

-- A client tells by its kind which index it is of.
index_kept :
    (i : ℕ) (c : IoClientType × ℕ)
    → get_io_client backends first_index solutions i ≡ ok c
    → index_of c.0 ≡ i
unfolding get_io_client find_solution client_by slot
index_kept i c h = by (0 == i) (1 == i) (2 == i) refl refl refl h
  where
    by :
        (x y z : Bool)
        → (0 == i) ≡ x
        → (1 == i) ≡ y
        → (2 == i) ≡ z
        → client_by backends first_index solutions
            (if x
              then some file_io
              else if y
              then some redis_io
              else if z
              then some mongo_io
              else none)
            i
          ≡ ok c
        → index_of c.0 ≡ i
    by true y z hx hy hz h =
        sym (ap (λ (c : IoClientType × ℕ). index_of c.0) (inject h)) ∙ (==_iff 0 i).0 hx
    by false true z hx hy hz h =
        sym (ap (λ (c : IoClientType × ℕ). index_of c.0) (inject h)) ∙ (==_iff 1 i).0 hy
    by false false true hx hy hz h =
        sym (ap (λ (c : IoClientType × ℕ). index_of c.0) (inject h)) ∙ (==_iff 2 i).0 hz
    by false false false hx hy hz h = cc

pub solutions-Separate : Separate backends first_index solutions
solutions-Separate i j c e hc he ne =
    inl (λ p. ne (sym (index_kept j e he) ∙ ap index_of p ∙ index_kept i c hc))

factory_io-IsIo_example : Contract.IsIo (factory_io backends first_index solutions)
factory_io-IsIo_example =
    AsIo.factory_io-IsIo backends list_files-IsFileSystem list_redis-IsRedis list_mongo-IsMongoStore
      first_index solutions solutions-Separate

abbrev sent_data : Data
sent_data = record {
  id = codes "a";
  position = 3;
  buffer = some (codes "abcdef");
  data_size = 4;
  storage_index = 1;
}

abbrev sent_metadata : Metadata
sent_metadata = record {
  is_link = false;
  storage_index = 1;
  links = (pos 0, sent_data) ∷ (pos 1, record sent_data { buffer = none }) ∷ [];
}

convert-pack_metadata_example :
    (pack_metadata sent_metadata >>= convert_metadata)
    ≡ ok (record sent_metadata {
      links =
          (pos 0, record sent_data { buffer = some (codes "abcd") })
          ∷ (pos 1, record sent_data { buffer = none })
          ∷ [];
    })
unfolding RoundTrip.sent_buffer
convert-pack_metadata_example =
    RoundTrip.convert-pack_metadata sent_metadata (omega arith) (omega arith)
