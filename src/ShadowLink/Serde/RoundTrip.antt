-- ===== src/ShadowLink/Serde/RoundTrip.antt =====
-- `deserialize_metadata` reads back what `serialize_metadata` wrote.
use symbios.Base.{
  ℕ, Bool, ◌+◌, ◌^◌, ◌<◌, ◌≡◌, ◌≢◌, ◌∙◌, refl, true, false, some, [], ◌∷◌, ◌++◌, arith,
  if◌then◌else◌, length,
}
use symbios.Base.Int.{ℤ, pos, negsuc, int_of_size, size_of_int, size_of_int-int_of_size}
use symbios.Base.Result.{ok, ◌>>=◌}
use symbios.Base.Text.{Bytes, print_ℤ, strtok, Lacks, atoi}
use symbios.Base.Text.Tokens.{strtok-field}
use symbios.Base.Text.Decimal.{atoi-print_ℤ, print_ℤ-Lacks, print_ℕ_head}
use symbios.ShadowLink.Serde.{
  SymbiosMetadata, sep, metadata_size, or_empty, shadow_of, primary_of, is_pfs, bool_of_int,
  deserialize_shadow, serialize_metadata, deserialize_metadata,
}
use symbios.ShadowLink.Serde.Text.{serialize_metadata_fits, IsInt}

pub print_ℤ-ne-nil : (z : ℤ) → print_ℤ z ≢ []
unfolding print_ℤ
print_ℤ-ne-nil (pos n) e = let (c, s, h, _, _) = print_ℕ_head n in cc
print_ℤ-ne-nil (negsuc n) e = cc

-- A number that `%d` printed is a token of its own, and `atoi` reads it.
pub strtok-print_ℤ :
    (z : ℤ) (rest : Bytes) → strtok sep (print_ℤ z ++ sep ∷ rest) ≡ (some (print_ℤ z), rest)
strtok-print_ℤ z rest =
    strtok-field sep (print_ℤ z) rest (print_ℤ-ne-nil z) (print_ℤ-Lacks sep z (omega arith))

abbrev pub IsField : Bytes → Type 0
IsField s = (s ≢ []) × Lacks sep s

-- What is kept of the offset: storage other than the two file systems loses it.
abbrev pub kept_offset : ℤ → ℕ → ℕ
kept_offset target offset =
    if is_pfs target then size_of_int (int_of_size offset) else size_of_int (negsuc 0)

pub deserialize_shadow_text :
    (id server : Bytes) (target port : ℤ) (offset : ℕ)
    → IsField server
    → deserialize_shadow id (
        print_ℤ target
        ++ (sep
            ∷ (server
                ++ (sep ∷ (print_ℤ port ++ (sep ∷ (print_ℤ (int_of_size offset) ++ (sep ∷ []))))))))
      ≡ ok (shadow_of id target (some server) port (kept_offset target offset))
unfolding deserialize_shadow
deserialize_shadow_text id server target port offset h =
    simp (strtok-print_ℤ, strtok-field sep server _ h.0 h.1, atoi-print_ℤ) (ground arith)

abbrev digit_of : Bool → Bytes
digit_of b = if b then b'1' ∷ [] else b'0' ∷ []

digit-IsField : (b : Bool) → IsField (digit_of b)
digit-IsField true = (cc, omega arith)
digit-IsField false = (cc, omega arith)

flag-digit : (b : Bool) → bool_of_int (atoi (digit_of b)) ≡ b
unfolding bool_of_int atoi
flag-digit true = refl
flag-digit false = refl

-- The first two fields decide how the rest is read.
pub deserialize_metadata_head :
    (id rest : Bytes) (b : Bool)
    → IsField id
    → deserialize_metadata (id ++ (sep ∷ (digit_of b ++ (sep ∷ rest))))
      ≡ (if b then ok (primary_of id) else deserialize_shadow id rest)
unfolding deserialize_metadata
deserialize_metadata_head id rest b h = simp (
  strtok-field sep id _ h.0 h.1,
  strtok-field sep (digit_of b) rest (digit-IsField b).0 (digit-IsField b).1,
  flag-digit b,
)

module _ (id server : Bytes) (target port : ℤ) (offset : ℕ) where
  abbrev pub Fits : Type 0
  Fits = IsInt target × IsInt port × (length id + length server + 40 < metadata_size)

  -- A shadow record whose key and server name are fields, and which fits, is read back; its offset
  -- is kept, in 32 bits, only for the two file systems.
  pub deserialize-serialize_shadow :
      IsField id
      → IsField server
      → Fits
      → (serialize_metadata (shadow_of id target (some server) port offset)
          >>= deserialize_metadata)
        ≡ ok (shadow_of id target (some server) port (kept_offset target offset))
  deserialize-serialize_shadow hid hs fits =
      rw
        (serialize_metadata_fits (shadow_of id target (some server) port offset) fits.0 fits.1
          fits.2)
        (deserialize_metadata_head id _ false hid
          ∙ deserialize_shadow_text id server target port offset hs)

  -- On the two file systems such a record with an offset below 2^31 comes back unchanged: its key and
  -- server name are fields, and it fits.
  pub deserialize-serialize_pfs :
      IsField id
      → IsField server
      → Fits
      → is_pfs target ≡ true
      → offset < 2 ^ 31
      → (serialize_metadata (shadow_of id target (some server) port offset)
          >>= deserialize_metadata)
        ≡ ok (shadow_of id target (some server) port offset)
  deserialize-serialize_pfs hid hs fits pfs small =
      deserialize-serialize_shadow hid hs fits ∙ rw pfs (rw (size_of_int-int_of_size offset small))

-- Of a primary record that fits, and whose key is a field, only the key and the flag come back: the
-- other fields are reset.
pub deserialize-serialize_primary :
    (m : SymbiosMetadata)
    → m.primary ≡ true
    → IsField m.data_id
    → IsInt m.target_stor
    → IsInt m.port
    → length m.data_id + length (or_empty m.server) + 40 < metadata_size
    → (serialize_metadata m >>= deserialize_metadata) ≡ ok (primary_of m.data_id)
deserialize-serialize_primary m p hid ht hp fits =
    rw (serialize_metadata_fits m ht hp fits)
      (deserialize_metadata_head m.data_id _ m.primary hid ∙ rw p)
