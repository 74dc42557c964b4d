-- ===== src/Tests/Records.antt =====
-- Records that are created in Redis and in MongoDB, and queried.
use symbios.Base.{◌≤◌, ◌≡◌, ◌≢◌, refl, some, [], arith, length, replicate}
use symbios.Base.Int.{pos}
use symbios.Base.Result.{ok, ◌>>=◌}
use symbios.Base.Text.{Bytes, Lacks, codes}
use symbios.ShadowLink.Serde.{code_of, pfs2, metadata_size, shadow_of}
use symbios.ShadowLink.Serde.RoundTrip
use symbios.ShadowLink.Redis.{create_symbios_metadata_redis, query_symbios_metadata_by_id_redis}
use symbios.ShadowLink.Redis.Query
use symbios.ShadowLink.Mongo.{create_symbios_metadata_mongo, query_symbios_metadata_by_id_mongo}
use symbios.ShadowLink.Mongo.Query as MongoQuery
use symbios.Tests.Doubles.{
  list_redis, list_redis-IsRedis, list_collection, list_collection-IsCollection, find_document,
}

abbrev key : Bytes
key = codes "shadow1"

abbrev server : Bytes
server = codes "node3"

abbrev stack : Bytes
stack = replicate 1024 7

key-IsField : RoundTrip.IsField key
key-IsField = (cc, omega arith)

server-IsField : RoundTrip.IsField server
server-IsField = (cc, omega arith)

key-Lacks : Lacks 0 key
key-Lacks = omega arith

server-Lacks : Lacks 0 server
server-Lacks = omega arith

key-ne-id : codes "_id" ≢ key
key-ne-id h = ground arith

fits : RoundTrip.Fits key server (code_of pfs2) (pos 7001) 512
unfolding code_of
fits = ((omega arith, omega arith), (omega arith, omega arith), omega arith)

room : metadata_size ≤ length stack
room = omega arith

query-create_shadow_example :
    (create_symbios_metadata_redis list_redis
        (shadow_of key (code_of pfs2) (some server) (pos 7001) 512)
        []
      >>= λ s'. query_symbios_metadata_by_id_redis list_redis key s' stack)
    ≡ ok (
        shadow_of key
          (code_of pfs2)
          (some server)
          (pos 7001)
          (RoundTrip.kept_offset (code_of pfs2) 512))
query-create_shadow_example =
    Query.query-create_shadow list_redis list_redis-IsRedis key server (code_of pfs2) (pos 7001) 512
      [] stack key-IsField server-IsField key-Lacks server-Lacks fits room

query_mongo-create_mongo_example :
    (create_symbios_metadata_mongo list_collection
        (shadow_of key (code_of pfs2) (some server) (pos 7001) 512)
        []
      >>= λ s'. query_symbios_metadata_by_id_mongo list_collection key s' stack)
    ≡ ok (
        shadow_of key
          (code_of pfs2)
          (some server)
          (pos 7001)
          (RoundTrip.kept_offset (code_of pfs2) 512))
unfolding find_document
query_mongo-create_mongo_example =
    MongoQuery.query_mongo-create_mongo list_collection list_collection-IsCollection key server
      (code_of pfs2) (pos 7001) 512 [] stack refl key-ne-id key-IsField server-IsField key-Lacks
      server-Lacks fits room
