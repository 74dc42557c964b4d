-- ===== src/Engine/Replay.antt =====
-- `do_io` of test_engine.c: the records of a trace, replayed on one storage.
pub mod LastRecord
use symbios.Base.{
  ℕ, zero, suc, ◌+◌, ◌-◌, ◌*◌, ◌%◌, Bool, true, false, Option, none, some, List, [], ◌∷◌, ◌++◌, ltb,
  ◌==◌, if◌then◌else◌, length,
}
use symbios.Base.Int.{ℤ}
use symbios.Base.Result.{Result, ok, err, aborted, null_pointer, out_of_fuel, ◌>>=◌}
use symbios.Base.Text.{Bytes, codes, print_ℕ, strcat}
use symbios.Base.Memory.{load, store}
use symbios.Collection.{Document, Collection, bytes_eq}
use symbios.RedisClient.{Redis}
use symbios.ShadowLink.Redis.{set_reply, write_redis_sized}
use symbios.ShadowLink.Mongo.{int_sum, sub_key, max_doc_size}
use symbios.Engine.Trace.{
  IoOps, read_op, write_op, TraceRecord, get_record_count, next_trace_record,
}

-- A C stream that is open for appending and reading. A seek that fails is `none`; `fwrite` and
-- `fread` return a `size_t`, whose test `< 0` is never true.
pub record Stream : Type 1 where
  pub State : Type 0
  pub fseek : State → ℤ → Option State
  pub fwrite : State → Bytes → State
  pub fread : State → ℕ → Bytes × State

-- `sprintf(key, "%s_%d_%d", KEY_BASE_STR, rank, rand())`
unfoldable pub random_key : ℕ → ℕ → Result Bytes
unfolding strcat
random_key rank random =
    strcat 1024 [] (codes "test" ++ (b'_' ∷ (print_ℕ rank ++ (b'_' ∷ print_ℕ random))))

module _ (stream : Stream) (redis : Redis) (mongo : Collection) where
  -- The globals, `total_size_per_rank` among them. A stream that is not open is `none`; `buf` is the write buffer.
  pub record Globals : Type 0 where
    pub dest_fp1 : Option stream.State
    pub dest_fp2 : Option stream.State
    pub cluster : redis.State
    pub collection : mongo.State
    pub buf : Bytes
    pub total_size : ℕ

  -- What `pfs1_io` and `pfs2_io` do with the stream at the offset of the record.
  unfoldable pub transfer : IoOps → ℕ → Bytes → stream.State → Result (Bytes × stream.State)
  transfer write_op size buf s = load buf 0 size >>= λ v. ok (buf, stream.fwrite s v)
  transfer read_op size buf s =
      let got = stream.fread s size in store buf 0 got.0 >>= λ next. ok (next, got.1)
  transfer _ size buf s = ok (buf, s)

  unfoldable pub seek_transfer :
      Option stream.State → TraceRecord → Bytes → Result (Bytes × stream.State)
  unfolding transfer
  seek_transfer none r buf = err (aborted 207)
  seek_transfer (some s) r buf = transfer r.ops r.size buf s

  unfoldable pub pfs1_io : TraceRecord → Globals → Result Globals
  unfolding seek_transfer
  pfs1_io r g = elim g.dest_fp1 [
    | none ↦ err null_pointer
    | some s ↦ seek_transfer (stream.fseek s r.offset) r g.buf >>= λ p.
        ok (record g { dest_fp1 = some p.1; buf = p.0 })
  ]

  unfoldable pub pfs2_io : TraceRecord → Globals → Result Globals
  unfolding seek_transfer
  pfs2_io r g = elim g.dest_fp2 [
    | none ↦ err null_pointer
    | some s ↦ seek_transfer (stream.fseek s r.offset) r g.buf >>= λ p.
        ok (record g { dest_fp2 = some p.1; buf = p.0 })
  ]

  -- The value that is read is assigned to a parameter and lost.
  unfoldable pub read_reply : Option (Option Bytes) → Globals → Result Globals
  read_reply none g = err null_pointer
  read_reply (some v) g = ok g

  unfoldable pub redis_by : IoOps → Bytes → ℕ → Globals → Result Globals
  unfolding read_reply
  redis_by write_op key size g =
      write_redis_sized redis key g.buf size g.cluster >>= λ s. ok (record g { cluster = s })
  redis_by read_op key size g = read_reply (redis.get g.cluster key) g
  redis_by _ key size g = ok g

  unfoldable pub redis_io : ℕ → ℕ → TraceRecord → Globals → Result Globals
  unfolding redis_by
  redis_io rank random r g = random_key rank random >>= λ key. redis_by r.ops key r.size g

  -- The documents of engine/io_mongo.c carry their key a second time.
  unfoldable pub insert_query_value : Bytes → Bytes → mongo.State → mongo.State
  insert_query_value key value s =
      (mongo.insert_one s (record {
        id = key;
        fields = (codes "_id", key) ∷ (codes "queryid", key) ∷ (key, value) ∷ [];
      })).1

  unfoldable pub write_query_subs :
      ℕ → Bytes → Bytes → ℕ → ℕ → ℕ → ℕ → mongo.State → Result mongo.State
  write_query_subs zero key buf len count finished sub s = err out_of_fuel
  write_query_subs (suc fuel) key buf len count finished sub s =
      let finished' = finished + sub in
      let next = (do
        k ← sub_key key count
        value ← load buf finished sub
        end ← int_sum finished' max_doc_size
        write_query_subs fuel key buf len (count + 1) finished'
            (if ltb len end then len % max_doc_size else sub) (insert_query_value k value s)) in
      if ltb finished len then next else ok s

  unfoldable pub write_query_sized : Bytes → Bytes → ℕ → mongo.State → Result mongo.State
  write_query_sized key buf len s =
      if ltb max_doc_size len
      then write_query_subs (suc len) key buf len 0 0 max_doc_size s
      else load buf 0 len >>= λ value. ok (insert_query_value key value s)

  -- What a read finds is turned into JSON, which is assigned to a parameter and lost.
  unfoldable pub mongo_by : IoOps → Bytes → ℕ → Globals → Result Globals
  mongo_by write_op key size g =
      write_query_sized key g.buf size g.collection >>= λ s. ok (record g { collection = s })
  mongo_by _ key size g = ok g

  unfoldable pub mongo_io : ℕ → ℕ → TraceRecord → Globals → Result Globals
  unfolding mongo_by
  mongo_io rank random r g = random_key rank random >>= λ key. mongo_by r.ops key r.size g

  -- Any other target does nothing.
  unfoldable pub record_io : Bytes → ℕ → ℕ → TraceRecord → Globals → Result Globals
  record_io target rank random r g =
      if bytes_eq target (codes "PFS1")
      then pfs1_io r g
      else if bytes_eq target (codes "PFS2")
      then pfs2_io r g
      else if bytes_eq target (codes "REDIS")
      then redis_io rank random r g
      else if bytes_eq target (codes "MONGO")
      then mongo_io rank random r g
      else ok g

  -- A NULL record is followed by the operation on it, unless the target names none.
  unfoldable pub null_io : Bytes → Globals → Result Globals
  null_io target g =
      if bytes_eq target (codes "PFS1")
      then err null_pointer
      else if bytes_eq target (codes "PFS2")
      then err null_pointer
      else if bytes_eq target (codes "REDIS")
      then err null_pointer
      else if bytes_eq target (codes "MONGO")
      then err null_pointer
      else ok g

  -- One round: the record is read, and its operation done. `before` is the record as it was.
  unfoldable pub replay_one :
      Bytes → ℕ → ℕ → Option TraceRecord → TraceRecord → Globals → Result (TraceRecord × Globals)
  unfolding null_io
  replay_one target rank random none before g = null_io target g >>= λ g'. ok (before, g')
  replay_one target rank random (some r) before g =
      record_io target rank random r (record g { total_size = g.total_size + r.size }) >>= λ g'.
      ok (r, g')

  -- `n` rounds; `random` is what `rand` returns in each.
  unfoldable pub replay : Bytes → ℕ → (ℕ → ℕ) → ℕ → Bytes → TraceRecord → Globals → Result Globals
  replay target rank random zero file before g = ok g
  replay target rank random (suc n) file before g = next_trace_record file before >>= λ next.
      replay_one target rank (random n) next.0 before g >>= λ p.
      replay target rank random n next.1 p.0 p.1

  -- `none` is a trace file that cannot be opened. The rounds are one less than the lines.
  unfoldable pub do_io : Bytes → Option Bytes → ℕ → (ℕ → ℕ) → TraceRecord → Globals → Result Globals
  do_io target none rank random before g = err (aborted 205)
  do_io target (some file) rank random before g =
      replay target rank random (get_record_count file - 1) file before g
