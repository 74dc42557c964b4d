-- ===== src/Serializers/RoundTrip.antt =====
-- Numbers that were written in turn are parsed in turn.
use native.Mathlib.Nat.{pow-suc}
use mathlib.Core.Path.{ap₂}
use symbios.Base.{
  ℕ, zero, suc, ◌+◌, ◌*◌, ◌/◌, ◌%◌, ◌^◌, ◌≤◌, ◌<◌, ◌≡◌, ◌∙◌, refl, sym, ap, false, inl, inr,
  Bool-cases, Option, none, some, List, [], ◌∷◌, ◌++◌, arith, ltb, length, take,
}
use symbios.Base.Text.{Bytes}
use symbios.Base.Memory.{
  patch, slice, length-patch, take-take, take-patch, take-add, append_cancel, take-length,
  take-patch_add,
}
use symbios.Serializers.{bytes_of_number, number_of_bytes, Binary, write_number, parse_number}

length-bytes_of_number : (w n : ℕ) → length (bytes_of_number w n) ≡ w
unfolding bytes_of_number
length-bytes_of_number zero n = refl
length-bytes_of_number (suc w) n = ap suc (length-bytes_of_number w (n / 256))

number-bytes : (w n : ℕ) → n < 256 ^ w → number_of_bytes (bytes_of_number w n) ≡ n
unfolding bytes_of_number number_of_bytes
number-bytes zero n h = omega arith
number-bytes (suc w) n h =
    ap (λ k. n % 256 + 256 * k)
      (number-bytes w (n / 256) (below n (256 ^ w) (rw (pow-suc 256 w) at h)))
    ∙ parts n
  where
    below : (n p : ℕ) → n < p * 256 → n / 256 < p
    below n p h = omega arith

    parts : (n : ℕ) → n % 256 + 256 * (n / 256) ≡ n
    parts n = omega arith

-- A record of a serializer that has no room left, or what the rest makes of it.
then_write : Option Binary → (Binary → Option Binary) → Option Binary
then_write none next = none
then_write (some b) next = next b

-- Fields as pairs of a width and a number, written in turn.
pub write_all : List (ℕ × ℕ) → Binary → Option Binary
unfolding then_write
write_all [] b = some b
write_all ((w, n) ∷ fields) b = then_write (write_number w n b) (write_all fields)

then_parse : Option (ℕ × Binary) → (Binary → Option (List ℕ)) → Option (List ℕ)
then_parse none next = none
then_parse (some (n, b)) next = elim (next b) [ none ↦ none | some ns ↦ some (n ∷ ns) ]

-- The same fields, parsed in turn by their widths.
pub parse_all : List (ℕ × ℕ) → Binary → Option (List ℕ)
unfolding then_parse
parse_all [] b = some []
parse_all ((w, _) ∷ fields) b = then_parse (parse_number w b) (parse_all fields)

abbrev pub numbers : List (ℕ × ℕ) → List ℕ
numbers [] = []
numbers ((w, n) ∷ fields) = n ∷ numbers fields

-- Each number has the width that it is written with.
abbrev pub HaveWidths : List (ℕ × ℕ) → Type 0
HaveWidths [] = Unit
HaveWidths ((w, n) ∷ fields) = (n < 256 ^ w) × HaveWidths fields

write_number-some :
    (w n : ℕ) (b c : Binary)
    → write_number w n b ≡ some c
    → (b.buf_off + w ≤ length b.block)
      × (c.block ≡ patch b.block b.buf_off (bytes_of_number w n))
      × (c.buf_off ≡ b.buf_off + w)
unfolding write_number
write_number-some w n b c h = elim (Bool-cases (ltb (length b.block) (b.buf_off + w))) [
  | inl e ↦ absurd (cc (rw e at h))
  | inr e ↦
      let same : record {
        block = patch b.block b.buf_off (bytes_of_number w n);
        buf_off = b.buf_off + w;
      }
          ≡ c =
        cc (rw e at h) in
      (ground (arith, e), sym (ap (λ d. d.block) same), sym (ap (λ d. d.buf_off) same))
]

then_write-some :
    (o : Option Binary) (next : Binary → Option Binary) (c : Binary)
    → then_write o next ≡ some c
    → (b : Binary) × (o ≡ some b) × (next b ≡ some c)
unfolding then_write
then_write-some none next c h = cc
then_write-some (some b) next c h = (b, refl, h)

-- Later writes leave what is in front of them.
write_all-front :
    (fields : List (ℕ × ℕ)) (b c : Binary)
    → write_all fields b ≡ some c
    → b.buf_off ≤ length b.block
    → (take b.buf_off c.block ≡ take b.buf_off b.block) × (length c.block ≡ length b.block)
unfolding write_all
write_all-front [] b c h room = (cc, cc)
write_all-front ((w, n) ∷ fields) b c h room =
    let (d, first, rest) = then_write-some (write_number w n b) (write_all fields) c h in
    let (fits, block, off) = write_number-some w n b d first in
    let size : length d.block ≡ length b.block =
      ap (λ (l : Bytes). length l) block
      ∙ length-patch b.block (bytes_of_number w n) b.buf_off
          (omega (arith, length-bytes_of_number w n)) in
    let (same, long) = write_all-front fields d c rest (omega (arith, size, off)) in
    (
      sym (take-take c.block b.buf_off d.buf_off (omega (arith, off)))
          ∙ ap (λ (l : Bytes). take b.buf_off l) same
          ∙ take-take d.block b.buf_off d.buf_off (omega (arith, off))
          ∙ ap (λ (l : Bytes). take b.buf_off l) block
          ∙ take-patch b.block (bytes_of_number w n) b.buf_off b.buf_off room (omega arith),
      long ∙ size,
    )

-- The bytes of a number that was written, in a block that later writes have not changed there.
slice-written :
    (block later : Bytes) (off w n : ℕ)
    → off + w ≤ length block
    → take (off + w) later ≡ take (off + w) (patch block off (bytes_of_number w n))
    → slice off w later ≡ bytes_of_number w n
slice-written block later off w n fits same =
    append_cancel (take off block) (slice off w later) (bytes_of_number w n) (
      ap (λ (l : Bytes). l ++ slice off w later) (sym front)
      ∙ sym (take-add later off w)
      ∙ same
      ∙ take-patch_add block (bytes_of_number w n) off w (omega arith)
          (omega (arith, length-bytes_of_number w n))
      ∙ ap (λ (l : Bytes). take off block ++ l)
          (take-length (bytes_of_number w n) w (omega (arith, length-bytes_of_number w n))))
  where
    front : take off later ≡ take off block
    front =
        sym (take-take later off (off + w) (omega arith))
        ∙ ap (λ (l : Bytes). take off l) same
        ∙ take-take (patch block off (bytes_of_number w n)) off (off + w) (omega arith)
        ∙ take-patch block (bytes_of_number w n) off off (omega arith) (omega arith)

parse_number-written :
    (block later : Bytes) (off w n : ℕ)
    → n < 256 ^ w
    → off + w ≤ length later
    → slice off w later ≡ bytes_of_number w n
    → parse_number w (record { block = later; buf_off = off })
      ≡ some (n, record { block = later; buf_off = off + w })
unfolding parse_number
parse_number-written block later off w n small fits same = rw (enough, same, number-bytes w n small)
  where
    enough : ltb (length later) (off + w) ≡ false
    enough = ground arith

parsed :
    (fields : List (ℕ × ℕ)) (b c : Binary)
    → HaveWidths fields
    → b.buf_off ≤ length b.block
    → write_all fields b ≡ some c
    → parse_all fields (record { block = c.block; buf_off = b.buf_off }) ≡ some (numbers fields)
unfolding write_all parse_all then_parse
parsed [] b c small room h = refl
parsed ((w, n) ∷ fields) b c small room h =
    let (d, first, rest) = then_write-some (write_number w n b) (write_all fields) c h in
    let (fits, block, off) = write_number-some w n b d first in
    let size : length d.block ≡ length b.block =
      ap (λ (l : Bytes). length l) block
      ∙ length-patch b.block (bytes_of_number w n) b.buf_off
          (omega (arith, length-bytes_of_number w n)) in
    let (same, long) = write_all-front fields d c rest (omega (arith, size, off)) in
    let same' : take (b.buf_off + w) c.block
        ≡ take (b.buf_off + w) (patch b.block b.buf_off (bytes_of_number w n)) =
      ap (λ k. take k c.block) (sym off) ∙ same ∙ ap₂ (λ k (l : Bytes). take k l) off block in
    rw
      (parse_number-written b.block c.block b.buf_off w n small.0 (omega (arith, size, long))
        (slice-written b.block c.block b.buf_off w n fits same'))
      (ap (λ o. elim o [ none ↦ none | some ns ↦ some (n ∷ ns) ])
        (ap (λ k. parse_all fields (record { block = c.block; buf_off = k })) (sym off)
          ∙ parsed fields d c small.1 (omega (arith, size, off)) rest))

abbrev pub total : List (ℕ × ℕ) → ℕ
total [] = 0
total ((w, n) ∷ fields) = w + total fields

write_number-room :
    (w n : ℕ) (b : Binary)
    → b.buf_off + w ≤ length b.block
    → write_number w n b
      ≡ some (record {
        block = patch b.block b.buf_off (bytes_of_number w n);
        buf_off = b.buf_off + w;
      })
unfolding write_number
write_number-room w n b room = ground arith

written :
    (fields : List (ℕ × ℕ)) (b : Binary)
    → b.buf_off + total fields ≤ length b.block
    → (c : Binary) × (write_all fields b ≡ some c)
unfolding write_all then_write
written [] b room = (b, refl)
written ((w, n) ∷ fields) b room =
    let (c, rest) =
      written fields
        (record { block = patch b.block b.buf_off (bytes_of_number w n); buf_off = b.buf_off + w })
        (omega (
          arith,
          length-patch b.block (bytes_of_number w n) b.buf_off
              (omega (arith, length-bytes_of_number w n)),
        )) in
    (c, rw (write_number-room w n b (omega arith)) rest)

-- Numbers that fit their widths are written in turn into a buffer with room for all of them, and are
-- parsed back by the same widths from the place where the first was written.
pub parse_all-write_all :
    (fields : List (ℕ × ℕ)) (b : Binary)
    → HaveWidths fields
    → b.buf_off + total fields ≤ length b.block
    → (c : Binary) × (write_all fields b ≡ some c)
      × (parse_all fields (record { block = c.block; buf_off = b.buf_off }) ≡ some (numbers fields))
parse_all-write_all fields b small room =
    let (c, runs) = written fields b room in (c, runs, parsed fields b c small (omega arith) runs)
