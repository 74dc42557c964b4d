-- ===== src/Lib.antt =====
-- Symbios: a storage system that stores objects on file systems, Redis clusters and MongoDB.
--
-- The new system: a client sends a request to a server (src/symbios/server/server.cpp), which asks a
-- distribution engine for a storage (src/symbios/data_distribution), the metadata orchestrator for the
-- segments of the object (src/symbios/metadata_orchestrator/metadata_orchestrator.cpp), and then the
-- storage clients (src/symbios/io_clients) for the bytes. The old system
-- (old/internal_component/shadow_link) keeps records that say where the shadow copies of an object
-- are, stores records and values in Redis and MongoDB, and replays traces of operations
-- (old/internal_component/engine). A library of common tools (src/common) replays such traces on Symbios,
-- on the C library, or on an emulation of Iris, which cuts a file into objects by itself and reaches the
-- storage clients without servers.
--
--   Base           Boolean tests, lists, machine numbers, results, C strings and blocks of memory.
--   Objects        include/symbios/common: Data, DataDistribution, Metadata, the storage clients
--                  (IOClient) as the interface Io, and MessagePack as the interface MsgPack.
--   Orchestrator   metadata_orchestrator.cpp: Store, Locate and Delete. Segments is the loop of Locate.
--   Distribution   the four engines behind DataDistributionEngineFactory.
--   Server         server.cpp: Store, Locate, Size and Delete; Bound is what a client reaches by RPC.
--   Storage        src/symbios/io_clients/io.h: one storage client, what the orchestrator and the server
--                  need of it, and the clients of one kind for every index (Family).
--   RedisClient    src/symbios/io_clients/redis_io.cpp, over the interface Redis (redis++); Endpoint is
--                  the choice of a node in redis_io.h.
--   FileClient     src/symbios/io_clients/file_io.cpp, over the interface FileSystem (POSIX).
--   MongoClient    src/symbios/io_clients/mongo_io.cpp, over the interface MongoStore (mongocxx).
--   IoFactory      src/symbios/io_clients/io_factory.h: the configured clients as one interface Io, and how
--                  they are made (Setup).
--   Iris           common/src/common/iris.cpp: DataMapper; LibHandler is in Handler, its constructor in
--                  Setup. Mapped, Ranges, Stored, Held, SameCut, Overrun and Unread are about the objects,
--                  what a storage keeps, a write leaves and a read meets, the cut of the orchestrator,
--                  writes over files, and reads.
--   Replayer       common/include/common/replayer.h: replay_trace, and in Files prepare_data and
--                  clean_data, over Iris and the C library; traces as they are written are in Print,
--                  blank lines in Blank.
--   Packing        the MessagePack adaptors of include/symbios/common/data_structure.h.
--   Client         src/symbios/client/client.cpp, over the interface Rpc.
--   Posix          src/symbios/client/posix.cpp: the open files of a program, and its stdio calls
--                  (Calls), over the client and the C library.
--   Configuration  include/symbios/common/configuration_manager.h, over a parsed document: variables of
--                  the environment (Variables), server lists (Servers), and Loading.
--   ShadowLink     old/internal_component/shadow_link: common.c (Serde), io_mongo.c (Mongo), over the
--                  interface Collection (libmongoc), and io_redis.c (Redis).
--   Engine         old/internal_component/engine: test_engine.c, its command line and policies, Trace,
--                  Replay (do_io, with the engine's copies of the Redis and MongoDB calls), Setup
--                  (init), and Hosts (the nodes of the Redis cluster, in io_redis.c). rand, fopen and the
--                  connections are arguments.
--   Arguments      common/include/common/arguments.h: the options of a command line; Numbers are the
--                  conversions, over std::stof as a parameter, and Given and Sizes are about what words
--                  leave and about sizes.
--   DoubleBuffer   src/symbios/storage_cost_predictor/double_buffer.h; a call is one step, and what
--                  try_lock answers is an argument. In Threads a step is one access of one of n threads
--                  to a lock or a list, with what each of them does next. A push finds the list in one
--                  and changes it in another; a removal is one access. Exclusive is about the locks,
--                  and Loaded about the lists that were found.
--   Serializers    src/symbios/storage_cost_predictor/serializers.h.
--   Tests          the theorems at concrete inputs, over small implementations of the interfaces.
--
-- State is passed explicitly; a call that can fail returns a Result, whose failures are the exceptions
-- of the program (thrown), its exit calls (aborted), and what C leaves undefined: a NULL pointer, a
-- place outside a block, a value that was never set, a division by zero, a sum of int that overflows. A read or a write outside a
-- block ends the run in the model. A text that sprintf, strcpy or strcat writes must fit with its NUL.
--
-- Bounds and fuel: the loop of write_mongo_sized runs on fuel, one more than the length of the value,
-- and each round with bytes left stores at least one; MAX_DOC_SIZE and MAX_OBJ_SIZE are parameters.
-- The loop over a file of hosts runs on its length, of which each round takes a byte at least.
-- The loop of DataMapper::map runs on the size of the range, of which each round takes a byte at least.
-- Sizes and positions of the new system are natural numbers without wrap-around, but for the
-- differences of the storage clients and the ranges of the stdio calls, which are taken modulo 2^64; an
-- int of the old one is an integer, and a size_t printed by %d is taken modulo 2^32.
--
-- A char is signed, as getc is stored in one by the trace replayer.
--
-- The trace replayer takes the size of a record as it is; sizes of 2^31 or more, which the calls take
-- as an int, are not told apart from the size_t.
--
-- A thread of the double buffer may find a free lock taken, as the standard allows to try_lock, and reads
-- the size of a list in one access, though the program has no lock for it. An offset of the emulated
-- Iris is not negative; the replayer does not follow a negative one further. The pieces of a write,
-- the lowest chunk index of which is computed and not used, are named by natural numbers below 2^63.
--
-- Not modelled: the inside of the RPC layer, MPI, the threads of the servers, the tracing and
-- timing macros, the rest of the cost predictor, the benchmarks, and the
-- wrapper library src/symbios/client/redis.cpp. What the constructors of the storage clients find
-- outside is a parameter. Allocations do not fail, but for those of a negative size. CharStruct is
-- a text of any length; a store into STORAGE_SOLUTIONS by an index that is not there is left out.
-- Which storage client Singleton::GetInstance returns for a kind and an index is a parameter of
-- IoFactory.
pub mod Base
pub mod Collection
pub mod ShadowLink
pub mod Engine
pub mod Objects
pub mod Orchestrator
pub mod Distribution
pub mod Server
pub mod Storage
pub mod RedisClient
pub mod FileClient
pub mod MongoClient
pub mod IoFactory
pub mod Iris
pub mod Replayer
pub mod Arguments
pub mod Packing
pub mod Client
pub mod Posix
pub mod Configuration
pub mod DoubleBuffer
pub mod Serializers
pub mod Tests
