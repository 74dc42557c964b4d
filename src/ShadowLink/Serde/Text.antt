-- ===== src/ShadowLink/Serde/Text.antt =====
-- What `serialize_metadata` writes, and when it fits its buffer.
use symbios.Base.{
  ℕ, suc, ◌+◌, ◌^◌, ◌≤◌, ◌<◌, ◌≡◌, ◌∙◌, ap, inl, inr, Bool, true, false, Bool-cases, ltb→lt, [],
  ◌∷◌, ◌++◌, arith, ltb, lt→ltb, if◌then◌else◌, length, length-append,
}
use symbios.Base.Int.{ℤ, pos, negsuc, pos_part, neg_part, int_of_size}
use symbios.Base.Result.{ok, err, out_of_bounds}
use symbios.Base.Text.{Bytes, print_ℤ, Lacks, Lacks-append}
use symbios.Base.Text.Buffer.{strcat-strcat, strcat-nil}
use symbios.Base.Text.Decimal.{length-print_ℕ, print_ℤ-Lacks}
use symbios.ShadowLink.Serde.{SymbiosMetadata, sep, metadata_size, or_empty, serialize_metadata}

abbrev pub flag_of : SymbiosMetadata → Bytes
flag_of m = if m.primary then b'1' ∷ [] else b'0' ∷ []

-- The six fields, each with the separator behind it.
abbrev pub record_text : SymbiosMetadata → Bytes
record_text m =
    m.data_id
    ++ (sep
        ∷ (flag_of m
            ++ (sep
                ∷ (print_ℤ m.target_stor
                    ++ (sep
                        ∷ (or_empty m.server
                            ++ (sep
                                ∷ (print_ℤ m.port
                                    ++ (sep
                                        ∷ (print_ℤ (int_of_size m.offset) ++ (sep ∷ [])))))))))))

-- The text is written whole if it fits with its NUL, and otherwise the buffer overflows.
pub serialize_metadata_lem :
    (m : SymbiosMetadata)
    → serialize_metadata m ≡ (
        if ltb (length (record_text m)) metadata_size
        then ok (record_text m)
        else err out_of_bounds)
unfolding serialize_metadata
serialize_metadata_lem m = simp strcat-strcat (strcat-nil metadata_size (record_text m))

length-flag : (m : SymbiosMetadata) → length (flag_of m) ≡ 1
length-flag m = ground arith

length-print_ℤ : (z : ℤ) → pos_part z < 10 ^ 10 → neg_part z < 10 ^ 10 → length (print_ℤ z) ≤ 11
unfolding print_ℤ
length-print_ℤ (pos n) h k = omega (arith, length-print_ℕ 9 n h)
length-print_ℤ (negsuc n) h k = omega (arith, length-print_ℕ 9 (suc n) k)

-- The range of an `int`.
abbrev pub IsInt : ℤ → Type 0
IsInt z = (pos_part z < 2 ^ 31) × (neg_part z ≤ 2 ^ 31)

int_of_size-IsInt : (n : ℕ) → IsInt (int_of_size n)
unfolding int_of_size
int_of_size-IsInt n = ground arith

-- A record whose numbers are of type `int` fits as long as its key and its server name leave room
-- for the 40 bytes that the rest can take.
pub serialize_metadata_fits :
    (m : SymbiosMetadata)
    → IsInt m.target_stor
    → IsInt m.port
    → length m.data_id + length (or_empty m.server) + 40 < metadata_size
    → serialize_metadata m ≡ ok (record_text m)
serialize_metadata_fits m ht hp h =
    serialize_metadata_lem m
    ∙ fits (
        omega (
          arith,
          length-append {0},
          length-print_ℤ m.target_stor (omega arith) (omega arith),
          length-print_ℤ m.port (omega arith) (omega arith),
          length-print_ℤ (int_of_size m.offset) (omega (arith, int_of_size-IsInt m.offset))
              (omega (arith, int_of_size-IsInt m.offset)),
          length-flag m,
        ))
  where
    fits :
        length (record_text m) < metadata_size
        → (if ltb (length (record_text m)) metadata_size
            then ok (record_text m)
            else err out_of_bounds)
          ≡ ok (record_text m)
    fits k = rw (lt→ltb _ _ k)

-- A text that was written left room for its NUL.
pub serialize_metadata-lt :
    (m : SymbiosMetadata) (t : Bytes) → serialize_metadata m ≡ ok t → length t < metadata_size
serialize_metadata-lt m t made = decide (serialize_metadata_lem m)
  where
    decide :
        serialize_metadata m ≡ (
          if ltb (length (record_text m)) metadata_size
          then ok (record_text m)
          else err out_of_bounds)
        → length t < metadata_size
    decide e = elim (Bool-cases (ltb (length (record_text m)) metadata_size)) [
      | inl fits ↦
          let same : record_text m ≡ t = cc (rw fits at e, made) in
          omega (arith, ltb→lt _ _ fits, ap (λ (l : Bytes). length l) same)
      | inr over ↦ absurd (cc (rw over at e, made))
    ]

-- A record whose key and server have no NUL is written without one.
pub record_text-Lacks :
    (m : SymbiosMetadata)
    → Lacks 0 m.data_id
    → Lacks 0 (or_empty m.server)
    → Lacks 0 (record_text m)
record_text-Lacks m tid ts = field _ _ tid (
    field _ _ (flag m.primary) (
      field _ _ (print_ℤ-Lacks 0 m.target_stor (omega arith)) (
        field _ _ ts (
          field _ _ (print_ℤ-Lacks 0 m.port (omega arith))
            (field _ _ (print_ℤ-Lacks 0 (int_of_size m.offset) (omega arith)) tt)))))
  where
    field : (s rest : Bytes) → Lacks 0 s → Lacks 0 rest → Lacks 0 (s ++ (sep ∷ rest))
    field s rest h k = Lacks-append 0 s (sep ∷ rest) h (omega arith, k)

    flag : (b : Bool) → Lacks 0 (if b then b'1' ∷ [] else b'0' ∷ [])
    flag true = omega arith
    flag false = omega arith
