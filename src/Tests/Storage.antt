-- ===== src/Tests/Storage.antt =====
-- Servers, orchestrator and storage clients at small requests.
use symbios.Base.{ℕ, ◌<◌, ◌≡◌, ◌⊎◌, refl, false, true, some, List, [], ◌∷◌, arith}
use symbios.Base.Result.{ok, read_redis_data_failed}
use symbios.Base.Text.{Bytes, codes}
use symbios.Objects.{Data, DataDistribution, no_data, file_io, redis_io, mongo_io}
use symbios.Orchestrator
use symbios.Orchestrator.Tiling
use symbios.Orchestrator.Contract
use symbios.Orchestrator.Visible
use symbios.Orchestrator.Known
use symbios.Base.Int.{pos, eqb_ℤ}
use symbios.Distribution.{Solutions, round_robin_policy, distribute}
use symbios.Distribution.Choice
use symbios.RedisClient
use symbios.RedisClient.Splice
use symbios.RedisClient.AsStorage
use symbios.Tests.Doubles.{list_redis, list_redis-IsRedis, find_value}
use symbios.Tests.Doubles.Codec.{list_codec, list_codec-IsMsgPack}

-- Three segments of eight bytes, and a request for bytes 5 to 14.
abbrev links : List Data
links =
    record no_data { id = codes "a0" }
    ∷ record no_data { id = codes "a1"; storage_index = 1 }
    ∷ record no_data { id = codes "a2" }
    ∷ []

abbrev request : Data
request = record no_data { id = codes "a"; position = 5; data_size = 10; storage_index = 1 }

abbrev solutions : Solutions
solutions = (0, file_io) ∷ (1, redis_io) ∷ (2, mongo_io) ∷ []

solutions-Below : Choice.Below 3 solutions
solutions-Below = omega arith

distribute-Selected_example :
    (i : ℕ) × (distribute round_robin_policy 0 7 solutions request request
      ≡ ok (
          record {
            source_data = request;
            destination_data = record request { storage_index = i };
            storage_index = request.storage_index;
          }
          ∷ []))
    × Choice.Selected round_robin_policy 0 7 solutions request.data_size i
    × (i < 3)
distribute-Selected_example =
    Choice.distribute-Selected round_robin_policy 0 7 solutions request request (cc) (omega arith)
      solutions-Below

new_value_lost_byte_example :
    RedisClient.new_value (codes "abcd") 2 (codes "XYZ") ≡ ok (b'a' ∷ 0 ∷ codes "XYZ")
new_value_lost_byte_example =
    Splice.new_value_lost_byte (codes "abcd") (codes "XYZ") 2 (omega arith) (omega arith)
      (omega arith)

-- A write of two bytes over a value of six, and a read of three bytes around them.
abbrev old_state : List (Bytes × Bytes)
old_state = (codes "k", codes "abcdef") ∷ []

abbrev pair_to_write : Data
pair_to_write = record {
  id = [];
  position = 0;
  buffer = some (codes "XY");
  data_size = 2;
  storage_index = 0;
}

abbrev place_to_write : Data
place_to_write = record no_data { id = codes "k"; position = 2 }

abbrev range_to_read : Data
range_to_read = record no_data { id = codes "k"; position = 1; data_size = 3 }

empty : ℕ → List (Bytes × Bytes)
empty j = []

empty-Absent : (j : ℕ) (id : Bytes) → Contract.Absent (AsStorage.redis_io list_redis) empty j id
unfolding RedisClient.read RedisClient.read_by find_value empty
empty-Absent j id q d e = (read_redis_data_failed, refl)

solutions-Distinct : Contract.Distinct (0 ∷ 1 ∷ 2 ∷ [])
solutions-Distinct = omega arith

abbrev named : List DataDistribution
named =
    record {
      source_data = record request { buffer = some (codes "0123456789") };
      destination_data = request;
      storage_index = 1;
    }
    ∷ []

store-visible_example :
    (s' : ℕ → List (Bytes × Bytes)) × (Orchestrator.store
        (AsStorage.redis_io list_redis)
        list_codec
        8
        (0 ∷ 1 ∷ 2 ∷ [])
        empty
        request
        named
      ≡ ok (s', (Orchestrator.store_new 8 named []).0))
    × ((j : ℕ)
        → (j ≡ 1) ⊎ Contract.Among j (0 ∷ 1 ∷ 2 ∷ [])
        → Orchestrator.primary_metadata
            (AsStorage.redis_io list_redis)
            list_codec
            8
            (0 ∷ 1 ∷ 2 ∷ [])
            s'
            (record request { storage_index = j })
          ≡ ok (record {
            is_link = false;
            storage_index = 1;
            links = (Orchestrator.store_new 8 named []).1;
          }))
store-visible_example =
    Visible.store-visible (AsStorage.redis_io list_redis)
      (AsStorage.redis_io-IsIo list_redis list_redis-IsRedis) list_codec list_codec-IsMsgPack 8
      (0 ∷ 1 ∷ 2 ∷ []) request named empty solutions-Distinct
      (λ j m. empty-Absent j (Orchestrator.meta_id request.id))

-- A write to the segments 0, which is stored, and 1, which is new.
abbrev segments_0_1 : List DataDistribution
segments_0_1 =
    record { source_data = request; destination_data = request; storage_index = 1 }
    ∷ record {
      source_data = request;
      destination_data = record request { position = 9 };
      storage_index = 1;
    }
    ∷ []

abbrev stored_link : Data
stored_link = record no_data { id = codes "a0"; storage_index = 2 }

store_more-links_example :
    (Orchestrator.find_link
        (pos 0)
        (Orchestrator.store_more 8 segments_0_1 ((pos 0, stored_link) ∷ []) false).1
      ≡ some stored_link)
    × Known.Covered 8 segments_0_1
        (Orchestrator.store_more 8 segments_0_1 ((pos 0, stored_link) ∷ []) false).1
    × (((Orchestrator.store_more 8 segments_0_1 ((pos 0, stored_link) ∷ []) false).2 ≡ true)
        ⊎ ((Orchestrator.store_more 8 segments_0_1 ((pos 0, stored_link) ∷ []) false).1
            ≡ (pos 0, stored_link) ∷ []))
unfolding Orchestrator.find_link eqb_ℤ
store_more-links_example =
    Known.store_more-links 8 segments_0_1 ((pos 0, stored_link) ∷ []) (pos 0) stored_link refl
