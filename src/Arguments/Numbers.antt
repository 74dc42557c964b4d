-- ===== src/Arguments/Numbers.antt =====
-- The conversions of the standard library that the options use, and the suffixes of a size.
use symbios.Base.{
  ℕ, ◌-◌, ◌*◌, ◌%◌, ◌^◌, Bool, false, ◌||◌, Option, none, some, [], ◌∷◌, ltb, ◌==◌, if◌then◌else◌,
}
use symbios.Base.Int.{ℤ, pos, negsuc, size_of_int}
use symbios.Base.Result.{Result, ok, err, foreign, out_of_bounds, ◌>>=◌}
use symbios.Base.Text.{Bytes, atoi, is_digit, is_space}

unfoldable pub or_throw {ℓ} : {A : Type ℓ} → Option A → Result A
or_throw none = err foreign
or_throw (some a) = ok a

abbrev pub starts_with_digit : Bytes → Bool
starts_with_digit [] = false
starts_with_digit (c ∷ s) = is_digit c

-- A number is there: behind spaces and a sign stands a digit.
unfoldable pub has_number : Bytes → Bool
has_number [] = false
has_number (c ∷ s) =
    let rest = has_number s in
    if is_space c
    then rest
    else if (c == b'-') || (c == b'+')
    then starts_with_digit s
    else is_digit c

abbrev pub is_int : ℤ → Bool
is_int (pos n) = ltb n (2 ^ 31)
is_int (negsuc n) = ltb n (2 ^ 31)

-- `std::stoi`
unfoldable pub stoi : Bytes → Result ℤ
unfolding has_number
stoi s =
    if has_number s then (if is_int (atoi s) then ok (atoi s) else err foreign) else err foreign

abbrev pub is_ulong : ℤ → Bool
is_ulong (pos n) = ltb n (2 ^ 64)
is_ulong (negsuc n) = ltb n (2 ^ 64 - 1)

-- `std::stoul`, which takes a negative number modulo 2^64.
unfoldable pub stoul : Bytes → Result ℕ
unfolding has_number
stoul s =
    if has_number s
    then (if is_ulong (atoi s) then ok (size_of_int (atoi s)) else err foreign)
    else err foreign

-- `arg[arg.length() - 1]`, which is outside an empty text.
unfoldable pub last_char : Bytes → Result ℕ
last_char [] = err out_of_bounds
last_char (c ∷ []) = ok c
last_char (c ∷ d ∷ s) = last_char (d ∷ s)

-- The factor of a suffix.
unfoldable pub unit_of : ℕ → ℕ
unit_of c =
    if (c == b'k') || (c == b'K')
    then 2 ^ 10
    else if (c == b'm') || (c == b'M')
    then 2 ^ 20
    else if (c == b'g') || (c == b'G')
    then 2 ^ 30
    else 1

-- `ToSize`
unfoldable pub to_size : Bytes → Result ℕ
unfolding last_char unit_of stoul
to_size arg = last_char arg >>= λ c. stoul arg >>= λ n. ok (n * unit_of c % 2 ^ 64)
