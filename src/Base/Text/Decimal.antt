-- ===== src/Base/Text/Decimal.antt =====
-- `atoi` reads back what `%d` prints, and the length and the bytes of a print.
use native.Mathlib.Nat.{pow-suc}
use symbios.Base.{
  ℕ, zero, suc, ◌+◌, ◌*◌, ◌/◌, ◌%◌, ◌^◌, ◌≤◌, ◌<◌, ◌-◌, ◌≡◌, ◌∙◌, false, ◌++◌, if◌then◌else◌, refl,
  ap, sym, [], ◌∷◌, arith, ltb, length, Bool-cases, inl, inr,
}
use symbios.Base.Int.{ℤ, pos, negsuc}
use symbios.Base.Text.Defs.{
  Bytes, Lacks, digits_onto, print_ℕ, print_ℤ, scan_digits, negate, atoi, is_digit,
}

scan_last : (n : ℕ) (out : Bytes) → scan_digits (n / 10) ((b'0' + n % 10) ∷ out) ≡ scan_digits n out
unfolding scan_digits
scan_last n out = ground arith

scan-digits_onto :
    (fuel n : ℕ) (out : Bytes)
    → n < fuel
    → scan_digits 0 (digits_onto fuel n out) ≡ scan_digits n out
unfolding digits_onto
scan-digits_onto zero n out h = elim h [ ]
scan-digits_onto (suc fuel) n out h = elim (Bool-cases (ltb n 10)) [
  | inl small ↦ rw small (unfold scan_digits in ground arith)
  | inr large ↦
      rw large
        (scan-digits_onto fuel (n / 10) ((b'0' + n % 10) ∷ out) (ground arith) ∙ scan_last n out)
]

pub scan-print_ℕ : (n : ℕ) → scan_digits 0 (print_ℕ n) ≡ n
unfolding print_ℕ
scan-print_ℕ n = scan-digits_onto (suc n) n [] (omega arith) ∙ unfold scan_digits in refl

pub print_ℕ-injective : (i j : ℕ) → print_ℕ i ≡ print_ℕ j → i ≡ j
print_ℕ-injective i j h = sym (scan-print_ℕ i) ∙ ap (scan_digits 0) h ∙ scan-print_ℕ j

-- A print begins with a digit.
digits_onto_head :
    (fuel n : ℕ) (out : Bytes)
    → n < fuel
    → (c : ℕ) × (s : Bytes) × (digits_onto fuel n out ≡ c ∷ s) × (b'0' ≤ c) × (c ≤ b'9')
unfolding digits_onto
digits_onto_head zero n out h = elim h [ ]
digits_onto_head (suc fuel) n out h = elim (Bool-cases (ltb n 10)) [
  | inl small ↦ (b'0' + n, out, rw small, omega arith, ground arith)
  | inr large ↦ rw large (digits_onto_head fuel (n / 10) ((b'0' + n % 10) ∷ out) (ground arith))
]

pub print_ℕ_head : (n : ℕ) → (c : ℕ) × (s : Bytes) × (print_ℕ n ≡ c ∷ s) × (b'0' ≤ c) × (c ≤ b'9')
unfolding print_ℕ
print_ℕ_head n = digits_onto_head (suc n) n [] (omega arith)

pub atoi_digit :
    (c : ℕ) (s : Bytes) → b'0' ≤ c → c ≤ b'9' → atoi (c ∷ s) ≡ pos (scan_digits 0 (c ∷ s))
unfolding atoi
atoi_digit c s h k = ground arith

-- What `%d` printed is read back.
pub atoi-print_ℤ : (z : ℤ) → atoi (print_ℤ z) ≡ z
unfolding print_ℤ
atoi-print_ℤ (pos n) =
    let (c, s, e, lo, hi) = print_ℕ_head n in
    rw e (atoi_digit c s lo hi ∙ ap pos (ap (scan_digits 0) (sym e) ∙ scan-print_ℕ n))
atoi-print_ℤ (negsuc n) = unfold atoi in rw (scan-print_ℕ (suc n)) (unfold negate in refl)

digits_onto-Lacks :
    (sep fuel n : ℕ) (out : Bytes) → sep < b'0' → Lacks sep out → Lacks sep (digits_onto fuel n out)
unfolding digits_onto
digits_onto-Lacks sep zero n out h k = k
digits_onto-Lacks sep (suc fuel) n out h k = elim (Bool-cases (ltb n 10)) [
  | inl small ↦ rw small (omega arith, k)
  | inr large ↦ rw large (digits_onto-Lacks sep fuel (n / 10) _ h (omega arith, k))
]

-- A print holds no byte below the digits but a minus sign.
pub print_ℕ-Lacks : (sep n : ℕ) → sep < b'0' → Lacks sep (print_ℕ n)
unfolding print_ℕ
print_ℕ-Lacks sep n h = digits_onto-Lacks sep (suc n) n [] h tt

pub print_ℤ-Lacks : (sep : ℕ) (z : ℤ) → sep < b'-' → Lacks sep (print_ℤ z)
unfolding print_ℤ
print_ℤ-Lacks sep (pos n) h = print_ℕ-Lacks sep n (omega arith)
print_ℤ-Lacks sep (negsuc n) h = (omega arith, print_ℕ-Lacks sep (suc n) (omega arith))

tenth : (n p : ℕ) → n < p * 10 → n / 10 < p
tenth n p h = omega arith

length-digits_onto :
    (k fuel n : ℕ) (out : Bytes)
    → n < 10 ^ suc k
    → length (digits_onto fuel n out) ≤ suc k + length out
unfolding digits_onto
length-digits_onto k zero n out h = omega arith
length-digits_onto zero (suc fuel) n out h = ground arith
length-digits_onto (suc k) (suc fuel) n out h = elim (Bool-cases (ltb n 10)) [
  | inl small ↦ rw small (omega arith)
  | inr large ↦ rw large (
      omega (
        arith,
        length-digits_onto k fuel (n / 10) ((b'0' + n % 10) ∷ out)
            (tenth n (10 ^ suc k) (rw (pow-suc 10 (suc k)) at h)),
      ))
]

-- A number with at most k + 1 digits takes at most k + 1 bytes.
pub length-print_ℕ : (k n : ℕ) → n < 10 ^ suc k → length (print_ℕ n) ≤ suc k
unfolding print_ℕ
length-print_ℕ k n h = omega (arith, length-digits_onto k (suc n) n [] h)

-- What stands behind a number, from a byte on that is no digit, is not read.
pub scan_digits_stop :
    (n c : ℕ) (s rest : Bytes)
    → is_digit c ≡ false
    → scan_digits n (s ++ (c ∷ rest)) ≡ scan_digits n s
unfolding scan_digits
scan_digits_stop n c [] rest h = rw h refl
scan_digits_stop n c (d ∷ s) rest h =
    ap (λ (m : ℕ). if is_digit d then m else n) (scan_digits_stop (n * 10 + (d - b'0')) c s rest h)

pub atoi-print_ℕ_stop :
    (n c : ℕ) (rest : Bytes) → is_digit c ≡ false → atoi (print_ℕ n ++ (c ∷ rest)) ≡ pos n
atoi-print_ℕ_stop n c rest h =
    let (d, s, e, lo, hi) = print_ℕ_head n in
    ap (λ (t : Bytes). atoi (t ++ (c ∷ rest))) e
    ∙ atoi_digit d (s ++ (c ∷ rest)) lo hi
    ∙ ap pos (scan_digits_stop 0 c (d ∷ s) rest h ∙ ap (scan_digits 0) (sym e) ∙ scan-print_ℕ n)
