-- ===== src/RedisClient.antt =====
-- src/symbios/io_clients/redis_io.cpp: the storage client over a Redis cluster (redis++), which is
-- the parameter `Redis`.
pub mod Endpoint
pub mod Splice
pub mod ReadBack
pub mod AsStorage
use symbios.Base.{
  ℕ, ◌+◌, ◌-◌, ◌≡◌, ◌≢◌, ◌≢◌, Bool, true, false, ◌||◌, Option, none, some, List, [], ◌∷◌, ◌++◌, ltb,
  leb, ◌==◌, if◌then◌else◌, length, replicate,
}
use symbios.Base.Result.{
  Result, ok, err, thrown, foreign, null_pointer, out_of_bounds, redis_server_side_failed,
  read_redis_position_or_size_failed, read_redis_data_failed, write_redis_data_failed, ◌>>=◌,
}
use symbios.Base.Text.{Bytes}
use symbios.Base.Memory.{load, store}
use symbios.Objects.{Data}

-- `none` is an exception of redis++ (`Error`); of an answer to `get`, `none` is a missing key.
pub record Redis : Type 1 where
  pub State : Type 0
  pub get : State → Bytes → Option (Option Bytes)
  pub set : State → Bytes → Bytes → Option (Bool × State)
  pub del : State → Bytes → State

-- A cluster that answers: what is set is accepted, `get` then returns it, and other keys stay.
pub record IsRedis (r : Redis) : Type 0 where
  pub answers : (s : r.State) (k : Bytes) → (o : Option Bytes) × (r.get s k ≡ some o)
  pub after : r.State → Bytes → Bytes → r.State
  pub accepts : (s : r.State) (k v : Bytes) → r.set s k v ≡ some (true, after s k v)
  pub returns : (s : r.State) (k v : Bytes) → r.get (after s k v) k ≡ some (some v)
  pub keeps : (s : r.State) (k v j : Bytes) → j ≢ k → r.get (after s k v) j ≡ r.get s j

-- `resize`, then the two `memcpy` into the new value: of the old one, and of the data.
unfoldable pub extended : Bytes → ℕ → Bytes → Result Bytes
extended old position bytes =
    let blank = replicate (position + length bytes) 0 in
    let count = if ltb (length old) position then length old else position - 1 in
    let kept =
      if ltb 0 position then (load old 0 count >>= λ part. store blank 0 part) else ok blank in
    kept >>= λ v. store v position bytes

-- The value that is stored over an old one.
unfoldable pub new_value : Bytes → ℕ → Bytes → Result Bytes
unfolding extended
new_value old position bytes =
    if leb (length old) (length bytes) || leb (length old) (length bytes + position)
    then extended old position bytes
    else store old position bytes

-- `source.buffer_ + source.position_`, for `data_size_` bytes.
unfoldable pub source_bytes : Data → Result Bytes
source_bytes d = elim d.buffer [ none ↦ err null_pointer | some b ↦ load b d.position d.data_size ]

-- `size` bytes of a value, which is a C string with a NUL behind it.
unfoldable pub copy_out : Bytes → ℕ → Data → Data → Result Data
copy_out value size source destination =
    if ltb (length value) size
    then err (thrown read_redis_position_or_size_failed)
    else (load (value ++ (0 ∷ [])) source.position size >>= λ b.
        ok (record destination { buffer = some b; data_size = size }))

module _ (r : Redis) where
  open r use {State, get, set, del}

  unfoldable pub set_by : Option (Bool × State) → Result State
  set_by none = err (thrown redis_server_side_failed)
  set_by (some (false, s)) = err (thrown write_redis_data_failed)
  set_by (some (true, s)) = ok s

  unfoldable pub read_by : Option (Option Bytes) → Data → Data → Result Data
  read_by none source destination = err (thrown redis_server_side_failed)
  read_by (some none) source destination = err (thrown read_redis_data_failed)
  read_by (some (some value)) source destination =
      copy_out value (if source.data_size == 0 then length value else source.data_size) source
        destination

  unfoldable pub read : State → Data → Data → Result Data
  unfolding read_by
  read s source destination = read_by (get s source.id) source destination

  unfoldable pub write_by : Option (Option Bytes) → State → Data → Data → Result State
  unfolding set_by
  write_by none s source destination = err (thrown redis_server_side_failed)
  write_by (some none) s source destination =
      source_bytes source >>= λ v. set_by (set s destination.id v)
  write_by (some (some old)) s source destination = source_bytes source >>= λ bytes.
      new_value old destination.position bytes >>= λ v. set_by (set s destination.id v)

  unfoldable pub write : State → Data → Data → Result State
  unfolding write_by
  write s source destination = write_by (get s destination.id) s source destination

  unfoldable pub remove : State → Data → Result (Bool × State)
  remove s source = ok (true, del s source.id)

  unfoldable pub size_by : Option (Option Bytes) → Result ℕ
  size_by none = err foreign
  size_by (some none) = ok 0
  size_by (some (some v)) = ok (length v)

  unfoldable pub size : State → Data → Result ℕ
  unfolding size_by
  size s source = size_by (get s source.id)
