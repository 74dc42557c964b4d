-- ===== src/Arguments/Sizes.antt =====
-- A size on the command line, with and without a suffix.
use symbios.Base.{
  ℕ, ◌*◌, ◌%◌, ◌^◌, ◌≤◌, ◌<◌, ◌≡◌, ◌≢◌, ◌∙◌, refl, ap, true, false, [], ◌∷◌, ◌++◌, arith, lt→ltb,
}
use symbios.Base.Int.{size_of_int}
use symbios.Base.Result.{ok}
use symbios.Base.Text.{Bytes, print_ℕ, is_digit}
use symbios.Base.Text.Decimal.{print_ℕ_head, atoi-print_ℕ_stop}
use symbios.Arguments.Numbers.{has_number, stoul, last_char, unit_of, to_size}

has_number_digit : (c : ℕ) (s : Bytes) → b'0' ≤ c → c ≤ b'9' → has_number (c ∷ s) ≡ true
unfolding has_number
has_number_digit c s lo hi = ground arith

last_char_append : (s : Bytes) (c : ℕ) → last_char (s ++ (c ∷ [])) ≡ ok c
unfolding last_char
last_char_append [] c = refl
last_char_append (x ∷ []) c = refl
last_char_append (x ∷ y ∷ s) c = last_char_append (y ∷ s) c

stoul-print_ℕ : (n c : ℕ) → n < 2 ^ 64 → is_digit c ≡ false → stoul (print_ℕ n ++ (c ∷ [])) ≡ ok n
unfolding stoul size_of_int
stoul-print_ℕ n c small no_digit =
    let (d, s, e, lo, hi) = print_ℕ_head n in
    rw
      (
        atoi-print_ℕ_stop n c [] no_digit,
        ap (λ (t : Bytes). has_number (t ++ (c ∷ []))) e ∙ has_number_digit d (s ++ (c ∷ [])) lo hi,
        lt→ltb n (2 ^ 64) small,
      )
      (ap ok (omega (arith, small)))

size_with :
    (n c unit : ℕ)
    → n < 2 ^ 64
    → is_digit c ≡ false
    → unit_of c ≡ unit
    → to_size (print_ℕ n ++ (c ∷ [])) ≡ ok (n * unit % 2 ^ 64)
unfolding to_size
size_with n c unit small no_digit e =
    rw (last_char_append (print_ℕ n) c, stoul-print_ℕ n c small no_digit, e) refl

no_suffix :
    (c : ℕ) → c ≢ b'k' → c ≢ b'K' → c ≢ b'm' → c ≢ b'M' → c ≢ b'g' → c ≢ b'G' → unit_of c ≡ 1
unfolding unit_of
no_suffix c k k' m m' g g' = ground arith

-- A decimal number below 2^64 with k or K behind it is that number times 1024, with m or M times
-- 1048576, and with g or G times 1073741824, modulo 2^64; with any other byte that is no digit it is
-- that number.
pub to_size-print_ℕ :
    (n c : ℕ)
    → n < 2 ^ 64
    → is_digit c ≡ false
    → c ≢ b'k'
    → c ≢ b'K'
    → c ≢ b'm'
    → c ≢ b'M'
    → c ≢ b'g'
    → c ≢ b'G'
    → (to_size (print_ℕ n ++ (b'k' ∷ [])) ≡ ok (n * 1024 % 2 ^ 64))
      × (to_size (print_ℕ n ++ (b'K' ∷ [])) ≡ ok (n * 1024 % 2 ^ 64))
      × (to_size (print_ℕ n ++ (b'm' ∷ [])) ≡ ok (n * 1048576 % 2 ^ 64))
      × (to_size (print_ℕ n ++ (b'M' ∷ [])) ≡ ok (n * 1048576 % 2 ^ 64))
      × (to_size (print_ℕ n ++ (b'g' ∷ [])) ≡ ok (n * 1073741824 % 2 ^ 64))
      × (to_size (print_ℕ n ++ (b'G' ∷ [])) ≡ ok (n * 1073741824 % 2 ^ 64))
      × (to_size (print_ℕ n ++ (c ∷ [])) ≡ ok n)
unfolding unit_of
to_size-print_ℕ n c small no_digit k k' m m' g g' = (
  size_with n b'k' 1024 small refl refl,
  size_with n b'K' 1024 small refl refl,
  size_with n b'm' 1048576 small refl refl,
  size_with n b'M' 1048576 small refl refl,
  size_with n b'g' 1073741824 small refl refl,
  size_with n b'G' 1073741824 small refl refl,
  size_with n c 1 small no_digit (no_suffix c k k' m m' g g') ∙ ap ok (omega (arith, small)),
)
