-- ===== src/ShadowLink/Redis/Query.antt =====
-- A record that is created in Redis and queried again.
use symbios.Base.{ℕ, ◌≤◌, ◌<◌, ◌≡◌, ◌∙◌, sym, ap, some, arith, length}
use symbios.Base.Result.{ok, ◌>>=◌}
use symbios.Base.Text.{Bytes, Lacks}
use symbios.Base.Memory.{load_lem, c_string-patch, strcpy_lem, take-length}
use symbios.RedisClient.{Redis, IsRedis}
use symbios.ShadowLink.Serde.{
  SymbiosMetadata, metadata_size, serialize_metadata, deserialize_metadata,
}
use symbios.Base.Int.{ℤ}
use symbios.ShadowLink.Serde.{shadow_of}
use symbios.ShadowLink.Serde.Text.{
  record_text, record_text-Lacks, serialize_metadata-lt, serialize_metadata_fits,
}
use symbios.ShadowLink.Serde.RoundTrip.{IsField, Fits, kept_offset, deserialize-serialize_shadow}
use symbios.ShadowLink.Redis.{
  set_reply, write_redis_sized, get_reply, read_redis_sized, create_symbios_metadata_redis,
  query_symbios_metadata_by_id_redis,
}

module _ (r : Redis) (law : IsRedis r) where
  open law use {after, accepts, returns}

  query-after :
      (id : Bytes) (s : r.State) (t stack : Bytes)
      → Lacks 0 t
      → length t < length stack
      → query_symbios_metadata_by_id_redis r id (after s id t) stack ≡ deserialize_metadata t
  unfolding query_symbios_metadata_by_id_redis read_redis_sized get_reply
  query-after id s t stack text room =
      rw (returns s id t, strcpy_lem stack t 0 text (omega arith), c_string-patch t stack text)

  create-after :
      (m : SymbiosMetadata) (s : r.State) (t : Bytes)
      → serialize_metadata m ≡ ok t
      → create_symbios_metadata_redis r m s ≡ ok (after s m.data_id t)
  unfolding create_symbios_metadata_redis write_redis_sized set_reply
  create-after m s t made = rw (
    made,
    load_lem t 0 (length t) (omega arith),
    take-length t (length t) (omega arith),
    accepts s m.data_id t,
  )

  -- On a cluster that answers, creating a record whose text fits and has no NUL, and querying it by
  -- its key into a buffer of 1024 bytes or more, reads back the text that was written.
  pub query-create :
      (m : SymbiosMetadata) (s : r.State) (t stack : Bytes)
      → serialize_metadata m ≡ ok t
      → Lacks 0 t
      → metadata_size ≤ length stack
      → (create_symbios_metadata_redis r m s >>= λ s'.
          query_symbios_metadata_by_id_redis r m.data_id s' stack)
        ≡ deserialize_metadata t
  query-create m s t stack made text room =
      ap (λ x. x >>= λ s'. query_symbios_metadata_by_id_redis r m.data_id s' stack)
        (create-after m s t made)
      ∙ query-after m.data_id s t stack text (omega (arith, serialize_metadata-lt m t made))

  -- On a cluster that answers, a shadow record that fits, whose key and server are fields without a
  -- NUL, is found again under its key; its offset is kept, in 32 bits, only for the two file systems.
  pub query-create_shadow :
      (id server : Bytes) (target port : ℤ) (offset : ℕ) (s : r.State) (stack : Bytes)
      → IsField id
      → IsField server
      → Lacks 0 id
      → Lacks 0 server
      → Fits id server target port offset
      → metadata_size ≤ length stack
      → (create_symbios_metadata_redis r (shadow_of id target (some server) port offset) s >>= λ s'.
          query_symbios_metadata_by_id_redis r id s' stack)
        ≡ ok (shadow_of id target (some server) port (kept_offset target offset))
  query-create_shadow id server target port offset s stack hid hs tid ts fits room =
      query-create (shadow_of id target (some server) port offset) s _ stack made
        (record_text-Lacks (shadow_of id target (some server) port offset) tid ts) room
      ∙ sym (ap (λ x. x >>= deserialize_metadata) made)
      ∙ deserialize-serialize_shadow id server target port offset hid hs fits
    where
      made :
          serialize_metadata (shadow_of id target (some server) port offset)
          ≡ ok (record_text (shadow_of id target (some server) port offset))
      made =
          serialize_metadata_fits (shadow_of id target (some server) port offset) fits.0 fits.1
            fits.2
