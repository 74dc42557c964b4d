-- ===== src/Engine/Setup.antt =====
-- `init` of test_engine.c: what is opened for a target, with an empty target standing for all.
pub mod Opened
use symbios.Base.{
  ℕ, zero, suc, ◌+◌, ◌*◌, ◌==◌, Bool, true, false, ◌||◌, Option, none, some, List, [], ◌∷◌,
  if◌then◌else◌, replicate,
}
use symbios.Base.Int.{ℤ, pos, negsuc, ltb_ℤ}
use symbios.Base.Result.{Result, ok, err, aborted, ◌>>=◌}
use symbios.Base.Text.{Bytes, codes}
use symbios.Collection.{Collection, bytes_eq}
use symbios.RedisClient.{Redis}
use symbios.Engine.Replay.{Stream, Globals}

-- PFS_MAX_RETRY
abbrev pub pfs_max_retry : ℕ
pfs_max_retry = 3

-- The test in front of each part.
unfoldable pub selected : Bytes → Bytes → Bool
selected target name = bytes_eq target [] || bytes_eq target name

-- In `main`: MAX_REQ_SIZE stands for a request size that is not given.
unfoldable pub max_req_size : ℤ → ℕ
max_req_size (pos n) = n
max_req_size (negsuc n) = 256 * (1024 * 1024)

-- The block of `genstring`, which has no NUL behind it; NULL for length 0.
unfoldable pub genstring : ℕ → Bytes
genstring length = if length == 0 then [] else replicate (length + 1) b'A'

module _ (stream : Stream) (redis : Redis) (mongo : Collection) where
  -- What the calls outside the program answer: each `fopen` by its number, `none` for NULL; the
  -- connections, `none` for one that fails.
  pub record Outside : Type 0 where
    pub pfs1_opens : ℕ → Option stream.State
    pub pfs2_opens : ℕ → Option stream.State
    pub redis_connects : Option redis.State
    pub mongo_connects : Option mongo.State

  unfoldable pub or_again : Option stream.State → Option stream.State → Option stream.State
  or_again none again = again
  or_again (some s) again = some s

  -- The loop over `fopen`, with the retries that are left.
  unfoldable pub open_dest : (ℕ → Option stream.State) → ℕ → ℕ → Option stream.State
  unfolding or_again
  open_dest opens zero i = opens i
  open_dest opens (suc left) i = or_again (opens i) (open_dest opens left (i + 1))

  unfoldable pub seek_start : Option stream.State → Result (Option stream.State)
  seek_start none = err (aborted 207)
  seek_start (some s) = ok (some s)

  unfoldable pub opened : Option stream.State → ℕ → Result (Option stream.State)
  unfolding seek_start
  opened none status = err (aborted status)
  opened (some s) status = seek_start (stream.fseek s (pos 0))

  unfoldable pub init_pfs : Bool → (ℕ → Option stream.State) → ℕ → Result (Option stream.State)
  init_pfs is_selected opens status =
      if is_selected then opened (open_dest opens pfs_max_retry 0) status else ok none

  -- A connection that is not made leaves the state of the storage as it is, and it is not used.
  unfoldable pub init_store {ℓ} : {A : Type ℓ} → Bool → Option A → A → ℕ → Result A
  init_store false connects idle status = ok idle
  init_store true none idle status = err (aborted status)
  init_store true (some s) idle status = ok s

  unfoldable pub init :
      Bytes → Outside → redis.State → mongo.State → ℕ → Result (Globals stream redis mongo)
  init target o cluster collection max = do
    fp1 ← init_pfs (selected target (codes "PFS1")) o.pfs1_opens 201
    fp2 ← init_pfs (selected target (codes "PFS2")) o.pfs2_opens 202
    redis_cc ← init_store (selected target (codes "REDIS")) o.redis_connects cluster 203
    mongo_cc ← init_store (selected target (codes "MONGO")) o.mongo_connects collection 204
    ok (record {
      dest_fp1 = fp1;
      dest_fp2 = fp2;
      cluster = redis_cc;
      collection = mongo_cc;
      buf = genstring max;
      total_size = 0;
    })
