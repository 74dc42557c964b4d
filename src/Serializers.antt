-- ===== src/Serializers.antt =====
-- src/symbios/storage_cost_predictor/serializers.h: numbers in a buffer of bytes, little-endian.
pub mod RoundTrip
use symbios.Base.{
  ℕ, zero, suc, ◌+◌, ◌*◌, ◌/◌, ◌%◌, Bool, true, false, Option, none, some, List, [], ◌∷◌, ltb,
  if◌then◌else◌, length,
}
use symbios.Base.Text.{Bytes}
use symbios.Base.Memory.{patch, slice}

-- A number of `w` bytes in memory; an `int` or a `float` is taken by its bits.
unfoldable pub bytes_of_number : ℕ → ℕ → Bytes
bytes_of_number zero n = []
bytes_of_number (suc w) n = (n % 256) ∷ bytes_of_number w (n / 256)

unfoldable pub number_of_bytes : Bytes → ℕ
number_of_bytes [] = 0
number_of_bytes (b ∷ s) = b + 256 * number_of_bytes s

-- The state of `BinarySerializer` and `BinaryDeserializer`: the block has `buf_size_` bytes.
pub record Binary : Type 0 where
  pub block : Bytes
  pub buf_off : ℕ

-- WriteInt, WriteUlong and WriteFloat, which differ in the width; `none` is the answer `false`.
unfoldable pub write_number : ℕ → ℕ → Binary → Option Binary
unfolding bytes_of_number
write_number w n b =
    if ltb (length b.block) (b.buf_off + w)
    then none
    else some
        (record { block = patch b.block b.buf_off (bytes_of_number w n); buf_off = b.buf_off + w })

-- ParseInt and ParseUlong. (ParseFloat reads alike and ends without a return.)
unfoldable pub parse_number : ℕ → Binary → Option (ℕ × Binary)
unfolding number_of_bytes
parse_number w b =
    if ltb (length b.block) (b.buf_off + w)
    then none
    else some (number_of_bytes (slice b.buf_off w b.block), record b { buf_off = b.buf_off + w })

-- The 4 bytes of an `int` or a `float`, and the 8 bytes of a `size_t`.
abbrev pub int_width : ℕ
int_width = 4

abbrev pub ulong_width : ℕ
ulong_width = 8
