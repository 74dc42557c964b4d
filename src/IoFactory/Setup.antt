-- ===== src/IoFactory/Setup.antt =====
-- The constructors of io_factory.h, io.h, file_io.h, redis_io.h and mongo_io.h: the clients are made
-- one after the other, and the first one that cannot be made ends the loop.
use symbios.Base.{
  ℕ, ◌≡◌, ◌∙◌, sym, ap, Bool, true, false, Option, none, some, List, [], ◌∷◌, ◌++◌, if◌then◌else◌,
}
use symbios.Base.Int.{ℤ}
use symbios.Base.Result.{
  Result, ok, err, thrown, null_pointer, file_path_non_existance, connect_redis_server_error,
  create_mongo_client_error, connect_mongo_database_error, connect_mongo_collection_error,
  connect_mongo_server_error, ◌>>=◌, >>=_inv,
}
use symbios.Base.Text.{Bytes}
use symbios.Objects.{StorageSolution, file_ss, redis_ss, mongo_ss, IoClientType, io_client_type}
use symbios.RedisClient.Endpoint.{connection_options}

-- What the constructors find outside: the paths that exist, the clusters that answer; and for MongoDB
-- whether a client, a database and a collection are there, where `none` is an exception of mongocxx.
-- `makes` says whether `Singleton` makes a client at that call, or returns one that it has.
pub record Surroundings : Type 0 where
  pub exists : Bytes → Bool
  pub redis_cluster : Bytes → ℤ → Bool
  pub mongo_client : Bytes → Option Bool
  pub mongo_database : Bytes → Bytes → Option Bool
  pub mongo_collection : Bytes → Bytes → Bytes → Option Bool
  pub makes : IoClientType → ℕ → Bool

-- A test that an exception of mongocxx may end.
unfoldable pub required : Option Bool → Result Bool → Result Bool
required none next = err (thrown connect_mongo_server_error)
required (some false) next = next
required (some true) next = ok true

module _ (out : Surroundings) (rank : ℕ) where
  -- `FileIOClient::FileIOClient`
  unfoldable pub new_file_client : Bytes → Result Bool
  new_file_client e = if out.exists e then ok true else err (thrown file_path_non_existance)

  -- `RedisIOClient::RedisIOClient`
  unfoldable pub new_redis_client : Bytes → Bytes → Result Bool
  new_redis_client e port = connection_options e port rank >>= λ options.
      if out.redis_cluster options.0 options.1
      then ok true
      else err (thrown connect_redis_server_error)

  -- `MongoIOClient::MongoIOClient`
  unfoldable pub new_mongo_client : Bytes → Bytes → Bytes → Result Bool
  unfolding required
  new_mongo_client e database collection =
      required (out.mongo_client e) (err (thrown create_mongo_client_error)) >>= λ a.
      required (out.mongo_database e database) (err (thrown connect_mongo_database_error)) >>= λ b.
      required (out.mongo_collection e database collection)
        (err (thrown connect_mongo_collection_error))

  unfoldable pub new_client : StorageSolution → Result Bool
  unfolding new_file_client new_redis_client new_mongo_client
  new_client (file_ss e) = new_file_client e
  new_client (redis_ss e port) = new_redis_client e port
  new_client (mongo_ss e database collection) = new_mongo_client e database collection

  -- `IOFactory::IOFactory`
  unfoldable pub new_factory : List (ℕ × Option StorageSolution) → Result Bool
  unfolding new_client
  new_factory [] = ok true
  new_factory ((i, none) ∷ solutions) = err null_pointer
  new_factory ((i, some s) ∷ solutions) =
      (if out.makes (io_client_type s) i then new_client s else ok true) >>= λ made.
      new_factory solutions

  -- A factory that was made has made a client for every solution that `Singleton` asks one for.
  new_factory-new_client :
      (front rest : List (ℕ × Option StorageSolution)) (i : ℕ) (s : StorageSolution)
      → new_factory (front ++ ((i, some s) ∷ rest)) ≡ ok true
      → out.makes (io_client_type s) i ≡ true
      → (b : Bool) × (new_client s ≡ ok b)
  unfolding new_factory
  new_factory-new_client [] rest i s h makes =
      let (b, e, more) =
        >>=_inv (if out.makes (io_client_type s) i then new_client s else ok true)
          (λ made. new_factory rest) true h in
      (b, sym (ap (λ x. if x then new_client s else ok true) makes) ∙ e)
  new_factory-new_client ((j, none) ∷ front) rest i s h makes = cc
  new_factory-new_client ((j, some t) ∷ front) rest i s h makes =
      let (b, e, more) =
        >>=_inv (if out.makes (io_client_type t) j then new_client t else ok true)
          (λ made. new_factory (front ++ ((i, some s) ∷ rest))) true h in
      new_factory-new_client front rest i s more makes
