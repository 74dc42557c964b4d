-- ===== src/RedisClient/ReadBack.antt =====
-- What a read of a Redis key gives after a write to it.
use symbios.Base.{
  ℕ, ◌+◌, ◌≤◌, ◌<◌, ◌≡◌, ◌∙◌, refl, ap, false, Option, none, some, [], ◌∷◌, ◌++◌, arith, length,
  ltb, ◌==◌, if◌then◌else◌, length-append,
}
use symbios.Base.Result.{Result, ok, err, ◌>>=◌}
use symbios.Base.Text.{Bytes}
use symbios.Base.Memory.{load_lem, slice, slice-append, take-length}
use symbios.Objects.{Data}
use symbios.RedisClient.{
  Redis, IsRedis, read, read_by, write, write_by, set_by, source_bytes, new_value, copy_out,
}

-- The value that a write leaves under its key.
unfoldable pub written : Option Bytes → Data → Data → Result Bytes
written none source destination = source_bytes source
written (some old) source destination =
    source_bytes source >>= λ bytes. new_value old destination.position bytes

-- The destination after a read that returns the range that `request` names.
abbrev pub answered : Data → Data → Bytes → Data
answered request answer v = record answer {
  buffer = some (slice request.position request.data_size v);
  data_size = request.data_size;
}

-- The whole of a buffer.
pub source_bytes-whole :
    (source : Data) (b : Bytes)
    → source.buffer ≡ some b
    → source.position ≡ 0
    → source.data_size ≡ length b
    → source_bytes source ≡ ok b
unfolding source_bytes
source_bytes-whole source b hb hp hs =
    rw (hb, hp, hs, load_lem b 0 (length b) (omega arith), take-length b (length b) (omega arith))

pub source_bytes_range :
    (source : Data) (b : Bytes)
    → source.buffer ≡ some b
    → source.position + source.data_size ≤ length b
    → source_bytes source ≡ ok (slice source.position source.data_size b)
unfolding source_bytes
source_bytes_range source b hb fits = rw (hb, load_lem b source.position source.data_size fits) refl

pub copy_out_lem :
    (v : Bytes) (n : ℕ) (source destination : Data)
    → source.position + n ≤ length v
    → copy_out v n source destination
      ≡ ok (record destination { buffer = some (slice source.position n v); data_size = n })
unfolding copy_out
copy_out_lem v n source destination fits =
    rw
      (enough, load_lem (v ++ (0 ∷ [])) source.position n (omega (arith, length-append v (0 ∷ []))))
      (ap (λ b. ok (record destination { buffer = some b; data_size = n }))
        (slice-append v (0 ∷ []) source.position n fits))
  where
    enough : ltb (length v) n ≡ false
    enough = ground arith

module _ (r : Redis) (law : IsRedis r) where
  open r use {State, get}
  open law use {after, accepts, returns}

  stored :
      (s : State) (k : Bytes) (x : Result Bytes)
      → (x >>= λ v. set_by r (r.set s k v)) ≡ (x >>= λ v. ok (after s k v))
  unfolding set_by
  stored s k (ok v) = ap (set_by r) (accepts s k v)
  stored s k (err e) = refl

  stored_by :
      (s : State) (k : Bytes) (x : Result Bytes) (f : Bytes → Result Bytes)
      → (x >>= λ b. f b >>= λ v. set_by r (r.set s k v)) ≡ ((x >>= f) >>= λ v. ok (after s k v))
  stored_by s k (ok b) f = stored s k (f b)
  stored_by s k (err e) f = refl

  -- On a cluster that answers, a write stores what `written` makes of the old value, if the key has
  -- one, and of the source; it fails where `written` fails.
  pub write-written :
      (s : State) (old : Option Bytes) (source destination : Data)
      → get s destination.id ≡ some old
      → write r s source destination
        ≡ (written old source destination >>= λ v. ok (after s destination.id v))
  unfolding write write_by written
  write-written s none source destination found =
      ap (λ o. write_by r o s source destination) found
      ∙ stored s destination.id (source_bytes source)
  write-written s (some old) source destination found =
      ap (λ o. write_by r o s source destination) found
      ∙ stored_by s destination.id (source_bytes source) (λ b. new_value old destination.position b)

  read_by-range :
      (v : Bytes) (request answer : Data)
      → request.position + request.data_size ≤ length v
      → 0 < request.data_size
      → read_by r (some (some v)) request answer ≡ ok (answered request answer v)
  unfolding read_by
  read_by-range v request answer fits some_bytes =
      ap (λ n. copy_out v n request answer) sized
      ∙ copy_out_lem v request.data_size request answer fits
    where
      sized : (if request.data_size == 0 then length v else request.data_size) ≡ request.data_size
      sized = ground arith

  -- On a cluster that answers, a read of a range of at least one byte inside the value that a write
  -- has stored under the same key returns that range of the value.
  pub read-write :
      (s : State) (old : Option Bytes) (source destination request answer : Data) (v : Bytes)
      → get s destination.id ≡ some old
      → written old source destination ≡ ok v
      → request.id ≡ destination.id
      → request.position + request.data_size ≤ length v
      → 0 < request.data_size
      → (write r s source destination >>= λ t. read r t request answer)
        ≡ ok (answered request answer v)
  unfolding read
  read-write s old source destination request answer v found makes same fits some_bytes =
      ap (λ x. x >>= λ t. read r t request answer) (write-written s old source destination found)
      ∙ ap (λ x. (x >>= λ v. ok (after s destination.id v)) >>= λ t. read r t request answer) makes
      ∙ ap (λ o. read_by r o request answer)
          (ap (get (after s destination.id v)) same ∙ returns s destination.id v)
      ∙ read_by-range v request answer fits some_bytes
