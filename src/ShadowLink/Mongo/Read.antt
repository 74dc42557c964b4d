-- ===== src/ShadowLink/Mongo/Read.antt =====
-- What `read_mongo_sized` copies out, after `write_mongo_sized` stored a value under new keys.
use Prim.Native.Nat.{min}
use symbios.Base.{
  ℕ, zero, suc, ◌+◌, ◌-◌, ◌*◌, ◌/◌, ◌^◌, ◌≤◌, ◌<◌, ◌≡◌, ◌∙◌, refl, sym, ap, [], ◌∷◌, ◌++◌, arith,
  lt→ltb, length, length-append, take, drop, length-take, length-drop,
}
use symbios.Base.Result.{ok, ◌>>=◌}
use symbios.Base.Text.{Bytes, Lacks}
use symbios.Base.Memory.{
  patch, length-patch, take-patch_add, take-add, take-append, take-length, Lacks-take, Lacks-drop,
}
use symbios.Collection.{Collection, IsCollection}
use symbios.ShadowLink.Mongo.{document_of, write_sized, read_subs, read_sized}
use symbios.ShadowLink.Mongo.Write.{piece_key, sub_key_lem, piece, put_pieces, write_sized_long}
use symbios.ShadowLink.Mongo.Documents.{
  piece_key-ne-id, read_docs-document_of, IsFresh, put_pieces-find,
}

zero-prefix : (mem buf : Bytes) (max : ℕ) → take (0 * max) mem ≡ take (0 * max) buf
zero-prefix mem buf max = let e : 0 * max ≡ 0 = omega arith in rw e refl

module _ (len max m : ℕ) (many : 0 < m) (lo : m * max < len) (hi : len ≤ m * max + max) where
  -- `ceil((double) length / MAX_DOC_SIZE)` is the number of documents.
  rounds : (len + max - 1) / max ≡ suc m
  rounds = grind arith

  longer : max < len
  longer = grind arith

read_sized_long :
    (c : Collection) (max : ℕ) (key : Bytes) (len m : ℕ) (s : c.State) (mem : Bytes)
    → 0 < m
    → m * max < len
    → len ≤ m * max + max
    → read_sized c max key len s mem ≡ read_subs c max (suc m) 0 (0 * max) key s mem
unfolding read_sized
read_sized_long c max key len m s mem h lo hi =
    rw (lt→ltb max len (longer len max m h lo hi), rounds len max m h lo hi)
      (ap (λ o. read_subs c max (suc m) 0 o key s mem) (omega arith))

module _ (c : Collection) (max : ℕ) (key buf : Bytes) (len : ℕ) (pos : 0 < max)
    (short : length key + 11 < 1024) (fits : len ≤ length buf) (int : len + max < 2 ^ 31)
    (text : Lacks 0 buf) where
  -- What a run of the loop leaves: the destination keeps its size and holds the value.
  record Copied (mem mem' : Bytes) : Type 0 where
    size : length mem' ≡ length mem
    copy : take len mem' ≡ take len buf

  abbrev Found : c.State → ℕ → ℕ → Type 0
  Found s i n =
      (j : ℕ)
      → i ≤ j
      → j < i + n
      → c.find_by_id s (piece_key key j)
        ≡ document_of (piece_key key j) (piece c max key buf len j) ∷ []

  abbrev next_mem : ℕ → Bytes → Bytes
  next_mem i mem = patch mem (i * max) (piece c max key buf len i ++ 0 ∷ [])

  length-piece :
      (i : ℕ) → i * max < len → length (piece c max key buf len i) ≡ min max (len - i * max)
  length-piece i h =
      omega (
        arith,
        length-take (min max (len - i * max)) (drop (i * max) buf),
        length-drop (i * max) buf,
      )

  next-length :
      (i : ℕ) (mem : Bytes)
      → i * max < len
      → len < length mem
      → length (next_mem i mem) ≡ length mem
  next-length i mem h room =
      length-patch mem _ (i * max)
        (omega (arith, length-append (piece c max key buf len i) (0 ∷ []), length-piece i h))

  -- The part copied so far is a prefix of the value, and one more round extends it.
  next-copy :
      (i : ℕ) (mem : Bytes)
      → i * max < len
      → len < length mem
      → take (i * max) mem ≡ take (i * max) buf
      → take (i * max + min max (len - i * max)) (next_mem i mem)
        ≡ take (i * max + min max (len - i * max)) buf
  next-copy i mem h room e =
      take-patch_add mem _ (i * max) (min max (len - i * max)) (omega arith)
        (omega (arith, length-append (piece c max key buf len i) (0 ∷ []), length-piece i h))
      ∙ rw e (
          ap (λ (l : Bytes). take (i * max) buf ++ l)
            (take-append (piece c max key buf len i) (0 ∷ []) (min max (len - i * max))
                (omega (arith, length-piece i h))
              ∙ take-length (piece c max key buf len i) (min max (len - i * max))
                  (omega (arith, length-piece i h)))
          ∙ sym (take-add buf (i * max) (min max (len - i * max))))

  read_subs_round :
      (n i : ℕ) (s : c.State) (mem : Bytes)
      → i * max < len
      → len < length mem
      → Found s i 1
      → read_subs c max (suc n) i (i * max) key s mem
        ≡ read_subs c max n (i + 1) (i * max + max) key s (next_mem i mem)
  unfolding read_subs
  read_subs_round n i s mem h room found = rw (
    sub_key_lem key i short (index-small i h),
    found i (omega arith) (omega arith),
    read_docs-document_of (piece_key key i) (piece c max key buf len i) mem (i * max)
        (piece_key-ne-id key i) (Lacks-take 0 _ _ (Lacks-drop 0 (i * max) buf text))
        (omega (arith, length-piece i h)),
  )
    where
      index-small : (k : ℕ) → k * max < len → k < 10 ^ 10
      index-small k h = grind arith

  read_subs_done :
      (i off : ℕ) (s : c.State) (mem : Bytes) → read_subs c max 0 i off key s mem ≡ ok mem
  unfolding read_subs
  read_subs_done i off s mem = refl

  next-prefix :
      (i : ℕ) (mem : Bytes)
      → i * max < len
      → i * max + max < len
      → len < length mem
      → take (i * max) mem ≡ take (i * max) buf
      → take ((i + 1) * max) (next_mem i mem) ≡ take ((i + 1) * max) buf
  next-prefix i mem h more room e =
      ap (λ k. take k (next_mem i mem)) (omega arith)
      ∙ next-copy i mem h room e
      ∙ ap (λ k. take k buf) (omega arith)

  -- The rounds from `i` on, over documents that are all there, copy the rest of the value.
  read_subs_lem :
      (m i : ℕ) (s : c.State) (mem : Bytes)
      → i * max + m * max < len
      → len ≤ i * max + m * max + max
      → len < length mem
      → Found s i (suc m)
      → take (i * max) mem ≡ take (i * max) buf
      → (mem' : Bytes) × (read_subs c max (suc m) i (i * max) key s mem ≡ ok mem') × Copied mem mem'
  read_subs_lem zero i s mem lo hi room found e = (
    next_mem i mem,
    read_subs_round zero i s mem (omega arith) room found
        ∙ read_subs_done (i + 1) (i * max + max) s (next_mem i mem),
    record {
      size = next-length i mem (omega arith) room;
      copy =
          ap (λ k. take k (next_mem i mem)) (omega arith)
          ∙ next-copy i mem (omega arith) room e
          ∙ ap (λ k. take k buf) (omega arith);
    },
  )
  read_subs_lem (suc m) i s mem lo hi room found e =
      let (mem', runs, copied) =
        read_subs_lem m (i + 1) s (next_mem i mem) (omega arith) (omega arith)
          (omega (arith, next-length i mem (omega arith) room))
          (λ j p q. found j (omega arith) (omega arith))
          (next-prefix i mem (omega arith) (omega arith) room e) in
      (
        mem',
        read_subs_round (suc m) i s mem (omega arith) room
              (λ j p q. found j (omega arith) (omega arith))
            ∙ ap (λ o. read_subs c max (suc m) (i + 1) o key s (next_mem i mem)) (omega arith)
            ∙ runs,
        record { size = copied.size ∙ next-length i mem (omega arith) room; copy = copied.copy },
      )

  -- Where the bound is over 0, the key leaves 11 bytes of 1024, the length is in the buffer, the
  -- length and the bound together are below 2^31, the buffer has no NUL, and the collection answers as `IsCollection`: after a value longer
  -- than one document was written under new keys, reading it into a block with room for it and a NUL
  -- succeeds, and leaves the value at the start of the block, whose size stays.
  pub read-write_sized :
      (laws : IsCollection c) (m : ℕ) (s : c.State) (mem : Bytes)
      → 0 < m
      → m * max < len
      → len ≤ m * max + max
      → len < length mem
      → IsFresh c laws max key buf len s 0
      → (mem' : Bytes) × ((write_sized c max key buf len s >>= λ s'.
            read_sized c max key len s' mem)
          ≡ ok mem')
        × (length mem' ≡ length mem)
        × (take len mem' ≡ take len buf)
  read-write_sized laws m s mem h lo hi room fresh =
      let (mem', runs, copied) =
        read_subs_lem m 0 (put_pieces c max key buf len (suc m) 0 s) mem (omega arith) (omega arith)
          room (λ j p q. put_pieces-find c laws max key buf len (suc m) 0 j s fresh p q)
          (zero-prefix mem buf max) in
      (
        mem',
        rw (write_sized_long c max key buf len pos short fits int m s h lo hi)
            (read_sized_long c max key len m _ mem h lo hi ∙ runs),
        copied.size,
        copied.copy,
      )
