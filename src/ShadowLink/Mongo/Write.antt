-- ===== src/ShadowLink/Mongo/Write.antt =====
-- What `write_mongo_sized` stores: the value, cut into documents one after the other.
use Prim.Native.Nat.{min}
use mathlib.Core.Path.{ap₂}
use symbios.Base.{
  ℕ, zero, suc, ◌+◌, ◌-◌, ◌*◌, ◌%◌, ◌^◌, ◌≤◌, ◌<◌, ◌≡◌, ◌∙◌, ◌∷◌, ◌++◌, arith, ltb, lt→ltb,
  if◌then◌else◌, length, length-append,
}
use symbios.Base.Result.{ok}
use symbios.Base.Text.{Bytes, print_ℕ}
use symbios.Base.Text.Buffer.{strcat-nil}
use symbios.Base.Text.Decimal.{length-print_ℕ}
use symbios.Base.Memory.{slice, load_lem}
use symbios.Collection.{Collection}
use symbios.ShadowLink.Mongo.{sub_key, int_sum, insert_value, write_subs, write_sized}

-- The key of document number `i`.
abbrev pub piece_key : Bytes → ℕ → Bytes
piece_key key i = key ++ (b'_' ∷ print_ℕ i)

-- A key that leaves room for the number, and a number of at most ten digits.
pub sub_key_lem :
    (key : Bytes) (i : ℕ)
    → length key + 11 < 1024
    → i < 10 ^ 10
    → sub_key key i ≡ ok (piece_key key i)
unfolding sub_key
sub_key_lem key i h k =
    strcat-nil 1024 (piece_key key i)
    ∙ rw (
        lt→ltb (length (piece_key key i)) 1024
          (omega (arith, length-append key (b'_' ∷ print_ℕ i), length-print_ℕ 9 i k)))

-- The remainder, where the quotient is known.
rest_of : (len max q : ℕ) → q * max ≤ len → len < q * max + max → len % max ≡ len - q * max
rest_of len max q h k = grind arith

module _ (c : Collection) (max : ℕ) (key buf : Bytes) (len : ℕ) where
  -- The bytes of document number `i`: `max` of them, or those that are left.
  abbrev pub piece : ℕ → Bytes
  piece i = slice (i * max) (min max (len - i * max)) buf

  -- `n` documents from number `i` on, inserted in order.
  unfoldable pub put_pieces : ℕ → ℕ → c.State → c.State
  put_pieces zero i s = s
  put_pieces (suc n) i s = put_pieces n (i + 1) (insert_value c (piece_key key i) (piece i) s)

module _ (c : Collection) (max : ℕ) (key buf : Bytes) (len : ℕ) (pos : 0 < max)
    (short : length key + 11 < 1024) (fits : len ≤ length buf) (int : len + max < 2 ^ 31) where
  index-small : (i : ℕ) → i * max < len → i < 10 ^ 10
  index-small i h = grind arith

  -- One round, while bytes are left.
  write_subs_round :
      (fuel i : ℕ) (s : c.State)
      → i * max < len
      → write_subs c max (suc fuel) key buf len i (i * max) (min max (len - i * max)) s
        ≡ write_subs c max fuel key buf len
            (i + 1)
            (i * max + min max (len - i * max))
            (if ltb len (i * max + min max (len - i * max) + max)
              then len % max
              else min max (len - i * max))
            (insert_value c (piece_key key i) (piece c max key buf len i) s)
  unfolding write_subs int_sum
  write_subs_round fuel i s h = rw (
    lt→ltb (i * max) len h,
    sub_key_lem key i short (index-small i h),
    load_lem buf (i * max) (min max (len - i * max)) (omega arith),
    lt→ltb (i * max + min max (len - i * max) + max) (2 ^ 31) (omega (arith, h, int)),
  )

  write_subs_done :
      (fuel i finished sub : ℕ) (s : c.State)
      → len ≤ finished
      → write_subs c max (suc fuel) key buf len i finished sub s ≡ ok s
  unfolding write_subs
  write_subs_done fuel i finished sub s h = ground arith

  -- With enough fuel for the documents that are left, they are all inserted.
  write_subs_lem :
      (m fuel i : ℕ) (s : c.State)
      → i * max + m * max < len
      → len ≤ i * max + m * max + max
      → suc m < fuel
      → write_subs c max fuel key buf len i (i * max) (min max (len - i * max)) s
        ≡ ok (put_pieces c max key buf len (suc m) i s)
  unfolding put_pieces
  write_subs_lem m zero i s lo hi f = absurd (omega arith)
  write_subs_lem m (suc zero) i s lo hi f = absurd (omega arith)
  write_subs_lem zero (suc (suc fuel)) i s lo hi f =
      write_subs_round (suc fuel) i s (omega arith)
      ∙ write_subs_done fuel (i + 1) (i * max + min max (len - i * max)) _ _ (omega arith)
  write_subs_lem (suc m) (suc (suc fuel)) i s lo hi f =
      write_subs_round (suc fuel) i s (omega arith)
      ∙ ap₂
          (λ f' sub.
            write_subs c max (suc fuel) key buf len (i + 1) f' sub
              (insert_value c (piece_key key i) (piece c max key buf len i) s))
          (omega arith) (ground (arith, rest_of len max (i + 1)))
      ∙ write_subs_lem m (suc fuel) (i + 1)
          (insert_value c (piece_key key i) (piece c max key buf len i) s) (omega arith)
          (omega arith) (omega arith)

  -- Where the bound is over 0, the key leaves 11 bytes of 1024, the length is in the buffer, and the
  -- length and the bound together are below 2^31: a value longer than one document is stored as documents 0, 1, ..., each but the last
  -- with `max` bytes and the last with those that are left, and nothing else is inserted.
  pub write_sized_long :
      (m : ℕ) (s : c.State)
      → 0 < m
      → m * max < len
      → len ≤ m * max + max
      → write_sized c max key buf len s ≡ ok (put_pieces c max key buf len (suc m) 0 s)
  unfolding write_sized
  write_sized_long m s h lo hi = rw (lt→ltb max len (long m h lo)) (
      ap₂ (λ f sub. write_subs c max (suc len) key buf len 0 f sub s) (omega arith) (start m h lo)
      ∙ write_subs_lem m (suc len) 0 s (omega arith) (omega arith) (enough m lo))
    where
      long : (k : ℕ) → 0 < k → k * max < len → max < len
      long k h lo = grind arith

      start : (k : ℕ) → 0 < k → k * max < len → max ≡ min max (len - 0 * max)
      start k h lo = omega (arith, long k h lo)

      enough : (k : ℕ) → k * max < len → suc k < suc len
      enough k lo = grind arith
