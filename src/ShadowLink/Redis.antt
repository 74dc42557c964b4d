-- ===== src/ShadowLink/Redis.antt =====
-- old/internal_component/shadow_link/io_redis.c: values and records in a Redis cluster (hiredis).
-- The list of nodes from a file of hosts is in Engine.Hosts, of the copy of that code in the engine.
-- Of an answer, `none` is a NULL reply, and an inner `none` a reply without a string.
pub mod Query
use symbios.Base.{
  ℕ, zero, suc, ◌+◌, ◌-◌, Bool, Option, none, some, List, [], ◌∷◌, ◌++◌, ltb, ◌==◌, if◌then◌else◌,
  length, take,
}
use symbios.Base.Result.{Result, ok, err, aborted, null_pointer, out_of_bounds, ◌>>=◌}
use symbios.Base.Text.{Bytes, codes, print_ℕ, strcat}
use symbios.Base.Memory.{load, strcpy, c_string}
use symbios.RedisClient.{Redis}
use symbios.ShadowLink.Serde.{SymbiosMetadata, serialize_metadata, deserialize_metadata}

-- REDIS_HOST_BASE, REDIS_HOST_COUNT, REDIS_PORT_BASE
abbrev pub redis_host_base : Bytes
redis_host_base = codes "ares-stor-"

abbrev pub redis_host_count : ℕ
redis_host_count = 4

abbrev pub redis_port_base : ℕ
redis_port_base = 7000

-- `%02d`
unfoldable pub print_two : ℕ → Bytes
print_two n = if ltb n 10 then b'0' ∷ print_ℕ n else print_ℕ n

-- The rounds of `genNodeList` from `i` on, `n` of them; the list is a block of 2048 bytes, and one
-- node has 32.
unfoldable pub gen_node_list : ℕ → ℕ → Bytes → Result Bytes
unfolding strcat print_two
gen_node_list zero i nodelist = ok nodelist
gen_node_list (suc n) i nodelist =
    strcat 32 [] (redis_host_base ++ (print_two (1 + i) ++ (b':' ∷ print_ℕ (redis_port_base + i))))
    >>= λ tmp. strcat 2048 nodelist tmp >>= λ next.
        (if i == redis_host_count - 1 then ok next else strcat 2048 next (b',' ∷ []))
        >>= gen_node_list n (i + 1)

module _ (r : Redis) where
  open r use {State, get, set}

  -- An answer that is not OK is reported, and the call returns.
  unfoldable pub set_reply : Option (Bool × State) → Result State
  set_reply none = err null_pointer
  set_reply (some (answer, s)) = ok s

  unfoldable pub write_redis : Bytes → Bytes → State → Result State
  unfolding set_reply c_string
  write_redis key value s = set_reply (set s key (c_string value))

  unfoldable pub write_redis_sized : Bytes → Bytes → ℕ → State → Result State
  write_redis_sized key value len s = load value 0 len >>= λ v. set_reply (set s key v)

  unfoldable pub get_reply : Option (Option Bytes) → Bytes → Result Bytes
  get_reply none value = err null_pointer
  get_reply (some none) value = err null_pointer
  get_reply (some (some v)) value = strcpy value 0 v

  unfoldable pub read_redis_sized : Bytes → State → Bytes → Result Bytes
  read_redis_sized key s value = get_reply (get s key) value

  unfoldable pub create_symbios_metadata_redis : SymbiosMetadata → State → Result State
  create_symbios_metadata_redis m s =
      serialize_metadata m >>= λ t. write_redis_sized m.data_id t (length t) s

  -- `stack` is what the 1024 bytes of the local buffer hold before the read.
  unfoldable pub query_symbios_metadata_by_id_redis : Bytes → State → Bytes → Result SymbiosMetadata
  query_symbios_metadata_by_id_redis id s stack =
      read_redis_sized id s stack >>= λ mem. deserialize_metadata (c_string mem)
