-- ===== src/RedisClient/Splice.antt =====
-- What `RedisIOClient::Write` makes of an old value.
use mathlib.Core.Path.{ap₂}
use symbios.Base.{
  ℕ, zero, suc, ◌+◌, ◌-◌, ◌≤◌, ◌<◌, ◌≡◌, ◌∙◌, refl, sym, ap, [], ◌∷◌, ◌++◌, arith, append_assoc,
  append-nil, ltb, lt→ltb, if◌then◌else◌, length, take, drop, replicate, length-replicate,
  length-take, length-append,
}
use symbios.Base.Result.{ok, ◌>>=◌}
use symbios.Base.Text.{Bytes}
use symbios.Base.Memory.{load, store, load_lem, store_lem, patch, take-length, take-append_add}
use symbios.RedisClient.{extended, new_value}

-- A new value whose bytes end strictly inside the old value replaces its own range only: the
-- other bytes of the old value stay.
pub new_value_inside :
    (old bytes : Bytes) (position : ℕ)
    → length bytes + position < length old
    → new_value old position bytes ≡ ok (patch old position bytes)
unfolding new_value
new_value_inside old bytes position h = ground (arith, store_lem old bytes position)

drop_all : (xs : Bytes) (n : ℕ) → length xs ≤ n → drop n xs ≡ []
drop_all [] zero h = refl
drop_all [] (suc n) h = refl
drop_all (x ∷ xs) zero h = absurd (omega arith)
drop_all (x ∷ xs) (suc n) h = drop_all xs n (omega arith)

take-replicate : (n k : ℕ) → n ≤ k → take {A = ℕ} n (replicate k 0) ≡ replicate n 0
take-replicate zero k h = refl
take-replicate (suc n) zero h = absurd (omega arith)
take-replicate (suc n) (suc k) h = ap (λ (l : Bytes). 0 ∷ l) (take-replicate n k (omega arith))

drop-replicate : (n k : ℕ) → drop {A = ℕ} n (replicate (n + k) 0) ≡ replicate k 0
drop-replicate zero k = ap (λ j. replicate j 0) (omega arith)
drop-replicate (suc n) k =
    ap (λ j. drop {A = ℕ} (suc n) (replicate j 0)) (suc-out n k) ∙ drop-replicate n k
  where
    suc-out : (a b : ℕ) → suc a + b ≡ suc (a + b)
    suc-out a b = omega arith

-- A prefix in a block of zeros.
prefix_in_zeros :
    (part : Bytes) (k : ℕ)
    → store (replicate (length part + k) 0) 0 part ≡ ok (part ++ replicate k 0)
prefix_in_zeros part k =
    store_lem (replicate (length part + k) 0) part 0
      (omega (arith, length-replicate {A = ℕ} (length part + k) 0))
    ∙ ap (λ j. ok (part ++ drop {A = ℕ} j (replicate (length part + k) 0))) (zero_out (length part))
    ∙ ap (λ (l : Bytes). ok (part ++ l)) (drop-replicate (length part) k)
  where
    zero_out : (n : ℕ) → 0 + n ≡ n
    zero_out n = omega arith

-- A tail behind a prefix and a gap.
tail_in_zeros :
    (part bytes : Bytes) (gap : ℕ)
    → store (part ++ replicate (gap + length bytes) 0) (length part + gap) bytes
      ≡ ok (part ++ (replicate gap 0 ++ bytes))
tail_in_zeros part bytes gap =
    store_lem block bytes (length part + gap) (omega (arith, size))
    ∙ ap₂ (λ (l t : Bytes). ok (l ++ (bytes ++ t))) front back
    ∙ ap (λ (l : Bytes). ok ((part ++ replicate gap 0) ++ l)) (append-nil bytes)
    ∙ ap (λ (l : Bytes). ok l) (append_assoc part (replicate gap 0) bytes)
  where
    block : Bytes
    block = part ++ replicate (gap + length bytes) 0

    size : length block ≡ length part + gap + length bytes
    size =
        length-append part (replicate (gap + length bytes) 0)
        ∙ omega (arith, length-replicate {A = ℕ} (gap + length bytes) 0)

    front : take (length part + gap) block ≡ part ++ replicate gap 0
    front =
        take-append_add part (replicate (gap + length bytes) 0) gap
        ∙ ap (λ (l : Bytes). part ++ l) (take-replicate gap (gap + length bytes) (omega arith))

    back : drop (length part + gap + length bytes) block ≡ []
    back = drop_all block _ (omega (arith, size))

extended_lem :
    (part bytes : Bytes) (gap : ℕ)
    → (store (replicate (length part + gap + length bytes) 0) 0 part >>= λ v.
        store v (length part + gap) bytes)
      ≡ ok (part ++ (replicate gap 0 ++ bytes))
extended_lem part bytes gap =
    ap (λ n. store (replicate n 0) 0 part >>= λ v. store v (length part + gap) bytes)
      (regroup (length part) gap (length bytes))
    ∙ ap (λ r. r >>= λ v. store v (length part + gap) bytes)
        (prefix_in_zeros part (gap + length bytes))
    ∙ tail_in_zeros part bytes gap
  where
    regroup : (a b c : ℕ) → a + b + c ≡ a + (b + c)
    regroup a b c = omega arith

new_value-extended :
    (old bytes : Bytes) (position : ℕ)
    → length old ≤ length bytes + position
    → new_value old position bytes ≡ extended old position bytes
unfolding new_value
new_value-extended old bytes position h = ground arith

-- `count` bytes of the old value are copied.
extended_by :
    (old bytes : Bytes) (position count : ℕ)
    → 0 < position
    → count ≡ (if ltb (length old) position then length old else position - 1)
    → count ≤ length old
    → count ≤ position
    → extended old position bytes ≡ ok (take count old ++ (replicate (position - count) 0 ++ bytes))
unfolding extended
extended_by old bytes position count above chosen inside short =
    ap₂
      (λ b c. (if b then (load old 0 c >>= λ part. store blank 0 part) else ok blank) >>= λ v.
        store v position bytes)
      (lt→ltb 0 position above) (sym chosen)
    ∙ ap (λ r. (r >>= λ part. store blank 0 part) >>= λ v. store v position bytes)
        (load_lem old 0 count (omega arith))
    ∙ ap (λ n. store (replicate (n + length bytes) 0) 0 part >>= λ v. store v n bytes) whole
    ∙ extended_lem part bytes (position - count)
  where
    blank : Bytes
    blank = replicate (position + length bytes) 0

    part : Bytes
    part = take count old

    whole : position ≡ length part + (position - count)
    whole = omega (arith, length-take count old)

-- A new value whose bytes start inside the old value, or right behind it, at a position over 0,
-- and reach its end or go past it keeps one byte less than the position: the last of the bytes in
-- front of the position becomes 0.
pub new_value_lost_byte :
    (old bytes : Bytes) (position : ℕ)
    → 0 < position
    → position ≤ length old
    → length old ≤ length bytes + position
    → new_value old position bytes ≡ ok (take (position - 1) old ++ (0 ∷ bytes))
new_value_lost_byte old bytes position above inside past =
    new_value-extended old bytes position past
    ∙ extended_by old bytes position (position - 1) above (ground arith) (omega arith) (omega arith)
    ∙ ap (λ n. ok (take (position - 1) old ++ (replicate n 0 ++ bytes))) (one_left position above)
  where
    one_left : (p : ℕ) → 0 < p → p - (p - 1) ≡ 1
    one_left p h = omega arith

-- A new value whose position is over the size of the old value keeps the whole old value, and fills
-- the gap with zeros.
pub new_value_gap :
    (old bytes : Bytes) (position : ℕ)
    → length old < position
    → new_value old position bytes ≡ ok (old ++ (replicate (position - length old) 0 ++ bytes))
new_value_gap old bytes position behind =
    new_value-extended old bytes position (omega arith)
    ∙ extended_by old bytes position (length old) (omega arith) (ground arith) (omega arith)
        (omega arith)
    ∙ ap (λ (l : Bytes). ok (l ++ (replicate (position - length old) 0 ++ bytes)))
        (take-length old (length old) (omega arith))

-- Bytes for position 0 that are at least as many as the old value has replace it.
pub new_value_whole :
    (old bytes : Bytes) → length old ≤ length bytes → new_value old 0 bytes ≡ ok bytes
unfolding extended
new_value_whole old bytes longer =
    new_value-extended old bytes 0 (omega arith) ∙ tail_in_zeros [] bytes 0
