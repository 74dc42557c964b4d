-- ===== src/ShadowLink/Serde/Shift.antt =====
-- A shadow record with no server name is written with an empty field, which `strtok` passes over:
-- every later field is read one place too early.
use symbios.Base.{
  ℕ, ◌+◌, ◌<◌, ◌≡◌, ◌∙◌, refl, false, none, some, [], ◌∷◌, ◌++◌, arith, if◌then◌else◌, length,
}
use symbios.Base.Int.{ℤ, negsuc, int_of_size, size_of_int}
use symbios.Base.Result.{ok, err, null_pointer, ◌>>=◌}
use symbios.Base.Text.{Bytes, print_ℤ, strtok}
use symbios.Base.Text.Tokens.{strtok-empty}
use symbios.Base.Text.Decimal.{atoi-print_ℤ}
use symbios.ShadowLink.Serde.{
  sep, metadata_size, shadow_of, is_pfs, deserialize_shadow, serialize_metadata,
  deserialize_metadata,
}
use symbios.ShadowLink.Serde.Text.{serialize_metadata_fits, IsInt}
use symbios.ShadowLink.Serde.RoundTrip.{IsField, strtok-print_ℤ, deserialize_metadata_head}

strtok-nil : strtok sep [] ≡ (none, [])
unfolding strtok
strtok-nil = refl

deserialize_shadow_shift :
    (id : Bytes) (target port : ℤ) (offset : ℕ)
    → deserialize_shadow id (
        print_ℤ target
        ++ (sep
            ∷ ([]
                ++ (sep ∷ (print_ℤ port ++ (sep ∷ (print_ℤ (int_of_size offset) ++ (sep ∷ []))))))))
      ≡ (if is_pfs target
          then err null_pointer
          else ok (
              shadow_of id target
                (some (print_ℤ port))
                (int_of_size offset)
                (size_of_int (negsuc 0))))
unfolding deserialize_shadow
deserialize_shadow_shift id target port offset =
    simp (strtok-print_ℤ, strtok-empty, atoi-print_ℤ, strtok-nil) (ground arith)

-- A shadow record with no server that fits, and whose key is a field, is not read back: a file system
-- as its target makes the read follow a NULL pointer; with any other target the port is taken for the
-- server name and the offset for the port.
pub deserialize-serialize_no_server :
    (id : Bytes) (target port : ℤ) (offset : ℕ)
    → IsField id
    → IsInt target
    → IsInt port
    → length id + 40 < metadata_size
    → (serialize_metadata (shadow_of id target none port offset) >>= deserialize_metadata) ≡ (
        if is_pfs target
        then err null_pointer
        else ok (
            shadow_of id target
              (some (print_ℤ port))
              (int_of_size offset)
              (size_of_int (negsuc 0))))
deserialize-serialize_no_server id target port offset hid ht hp fits =
    rw (serialize_metadata_fits (shadow_of id target none port offset) ht hp (omega arith))
      (deserialize_metadata_head id _ false hid ∙ deserialize_shadow_shift id target port offset)
