-- ===== src/Base/Text/Defs.antt =====
-- The functions of the C library on strings that the program calls.
use Prim.Native.Char.{code}
use Prim.Native.String.{String}
use symbios.Base.{
  ℕ, zero, suc, ◌+◌, ◌-◌, ◌*◌, ◌/◌, ◌%◌, Bool, ◌&&◌, ◌||◌, List, [], ◌∷◌, ◌++◌, ◌≢◌, Option, none,
  some, ltb, leb, ◌==◌, if◌then◌else◌, length,
}
use symbios.Base.Int.{ℤ, pos, negsuc}
use symbios.Base.Result.{Result, ok, err, out_of_bounds}

abbrev pub Bytes : Type 0
Bytes = List ℕ

abbrev pub codes : String → Bytes
codes String.[] = []
codes (String.◌∷◌ c s) = code c ∷ codes s

abbrev pub is_digit : ℕ → Bool
is_digit c = leb b'0' c && leb c b'9'

-- The digits of `n` in front of `out`. A number below the fuel is printed whole.
unfoldable pub digits_onto : ℕ → ℕ → Bytes → Bytes
digits_onto zero n out = out
digits_onto (suc fuel) n out =
    let rest = digits_onto fuel (n / 10) ((b'0' + n % 10) ∷ out) in
    if ltb n 10 then (b'0' + n) ∷ out else rest

-- `sprintf("%lu")` and `std::to_string` of an unsigned number.
unfoldable pub print_ℕ : ℕ → Bytes
unfolding digits_onto
print_ℕ n = digits_onto (suc n) n []

-- `sprintf("%d")`.
unfoldable pub print_ℤ : ℤ → Bytes
print_ℤ (pos n) = print_ℕ n
print_ℤ (negsuc n) = b'-' ∷ print_ℕ (suc n)

-- The number that a run of digits spells behind `n`; it ends at the first other byte.
unfoldable pub scan_digits : ℕ → Bytes → ℕ
scan_digits n [] = n
scan_digits n (c ∷ s) =
    let more = scan_digits (n * 10 + (c - b'0')) s in if is_digit c then more else n

unfoldable pub negate : ℕ → ℤ
negate zero = pos 0
negate (suc n) = negsuc n

-- `isspace`.
abbrev pub is_space : ℕ → Bool
is_space c = (c == 32) || (leb 9 c && leb c 13)

-- `atoi`. A number out of the range of `int` is undefined in C; here it is the number as written.
unfoldable pub atoi : Bytes → ℤ
unfolding scan_digits negate
atoi [] = pos 0
atoi (c ∷ s) =
    let rest = atoi s in
    if is_space c
    then rest
    else if c == b'-'
    then negate (scan_digits 0 s)
    else if c == b'+'
    then pos (scan_digits 0 s)
    else pos (scan_digits 0 (c ∷ s))

-- `strtok`: skip the separators, then take the bytes up to the next separator, which is consumed.
unfoldable pub skip_seps : ℕ → Bytes → Bytes
skip_seps sep [] = []
skip_seps sep (c ∷ s) = let rest = skip_seps sep s in if c == sep then rest else c ∷ s

unfoldable pub take_token : ℕ → Bytes → Bytes × Bytes
take_token sep [] = ([], [])
take_token sep (c ∷ s) =
    let rest = take_token sep s in if c == sep then ([], s) else (c ∷ rest.0, rest.1)

-- The token that starts a text with its separators skipped, or NULL at the end.
unfoldable pub first_token : ℕ → Bytes → Option Bytes × Bytes
unfolding take_token
first_token sep [] = (none, [])
first_token sep (c ∷ s) = let r = take_token sep (c ∷ s) in (some r.0, r.1)

-- The token, or NULL, and what the next call goes on with.
unfoldable pub strtok : ℕ → Bytes → Option Bytes × Bytes
unfolding skip_seps first_token
strtok sep s = first_token sep (skip_seps sep s)

-- `strcat` into a buffer of `cap` bytes that holds `dst`; the terminating NUL takes one.
unfoldable pub strcat : ℕ → Bytes → Bytes → Result Bytes
strcat cap dst src =
    if ltb (length dst + length src) cap then ok (dst ++ src) else err out_of_bounds

-- Every byte of the text is another one than `sep`.
abbrev pub Lacks : ℕ → Bytes → Type 0
Lacks sep [] = Unit
Lacks sep (c ∷ s) = (c ≢ sep) × Lacks sep s

pub Lacks-append : (sep : ℕ) (s t : Bytes) → Lacks sep s → Lacks sep t → Lacks sep (s ++ t)
Lacks-append sep [] t h k = k
Lacks-append sep (c ∷ s) t h k = (h.0, Lacks-append sep s t h.1 k)
