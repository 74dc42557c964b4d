-- ===== src/ShadowLink/Serde.antt =====
-- old/internal_component/shadow_link/common.{h,c}: a metadata record, and the text that is kept of it.
pub mod Text
pub mod RoundTrip
pub mod Shift
use symbios.Base.{
  ℕ, zero, suc, ◌+◌, ◌≡◌, Bool, true, false, ◌||◌, Option, none, some, List, [], ◌∷◌, ◌++◌,
  if◌then◌else◌, ltb,
}
use symbios.Base.Int.{ℤ, pos, negsuc, int_of_size, size_of_int, eqb_ℤ}
use symbios.Base.Result.{Result, ok, err, null_pointer, out_of_bounds, ◌>>=◌}
use symbios.Base.Text.{Bytes, print_ℤ, atoi, strtok, strcat}

-- `enum target_stor`. Another integer can be read from a text, so a record holds the integer.
pub data Target : Type 0 where
  unknown pfs1 pfs2 redis mongo : Target

unfoldable pub code_of : Target → ℤ
code_of unknown = negsuc 0
code_of pfs1 = pos 0
code_of pfs2 = pos 1
code_of redis = pos 2
code_of mongo = pos 3

-- `symbios_metadata`. A NULL server is `none`.
pub record SymbiosMetadata : Type 0 where
  pub primary : Bool
  pub data_id : Bytes
  pub target_stor : ℤ
  pub server : Option Bytes
  pub port : ℤ
  pub offset : ℕ

-- SERDE_MD_SEP
abbrev pub sep : ℕ
sep = b'#'

-- The size of the buffer that `serialize_metadata` allocates, and of those that queries read into.
abbrev pub metadata_size : ℕ
metadata_size = 1024

abbrev pub or_empty : Option Bytes → Bytes
or_empty none = []
or_empty (some s) = s

-- Every step is a `strcat`, which writes past the buffer if the text is too long.
unfoldable pub serialize_metadata : SymbiosMetadata → Result Bytes
serialize_metadata m = do
  s ← strcat metadata_size [] m.data_id
  s ← strcat metadata_size s (sep ∷ [])
  s ← strcat metadata_size s (if m.primary then b'1' ∷ [] else b'0' ∷ [])
  s ← strcat metadata_size s (sep ∷ [])
  s ← strcat metadata_size s (print_ℤ m.target_stor)
  s ← strcat metadata_size s (sep ∷ [])
  s ← strcat metadata_size s (or_empty m.server)
  s ← strcat metadata_size s (sep ∷ [])
  s ← strcat metadata_size s (print_ℤ m.port)
  s ← strcat metadata_size s (sep ∷ [])
  s ← strcat metadata_size s (print_ℤ (int_of_size m.offset))
  strcat metadata_size s (sep ∷ [])

-- `atoi(token)`, which follows a NULL pointer if there was no token.
unfoldable pub atoi_token : Option Bytes → Result ℤ
atoi_token none = err null_pointer
atoi_token (some t) = ok (atoi t)

-- `metadata->data_id = token` may leave NULL, and the `atoi` of the next token then faults.
unfoldable pub read_id : Option Bytes → Result Bytes
read_id none = err null_pointer
read_id (some t) = ok t

-- The record that is returned for a shadow copy.
abbrev pub shadow_of : Bytes → ℤ → Option Bytes → ℤ → ℕ → SymbiosMetadata
shadow_of id target server port offset = record {
  primary = false;
  data_id = id;
  target_stor = target;
  server = server;
  port = port;
  offset = offset;
}

-- `target_stor == PFS1 || target_stor == PFS2`
unfoldable pub is_pfs : ℤ → Bool
unfolding code_of eqb_ℤ
is_pfs target = eqb_ℤ target (code_of pfs1) || eqb_ℤ target (code_of pfs2)

-- The fields of a record whose primary flag was not 1.
unfoldable pub deserialize_shadow : Bytes → Bytes → Result SymbiosMetadata
unfolding atoi_token is_pfs
deserialize_shadow id s = do
  let t₁ = strtok sep s
  target ← atoi_token t₁.0
  let t₂ = strtok sep t₁.1
  let t₃ = strtok sep t₂.1
  port ← atoi_token t₃.0
  let t₄ = strtok sep t₃.1
  if is_pfs target
      then (atoi_token t₄.0 >>= λ offset. ok (shadow_of id target t₂.0 port (size_of_int offset)))
      else ok (shadow_of id target t₂.0 port (size_of_int (negsuc 0)))

-- `primary` is a `bool`: any number but 0 is stored as 1.
unfoldable pub bool_of_int : ℤ → Bool
bool_of_int (pos zero) = false
bool_of_int _ = true

abbrev pub primary_of : Bytes → SymbiosMetadata
primary_of id = record {
  primary = true;
  data_id = id;
  target_stor = code_of unknown;
  server = none;
  port = negsuc 0;
  offset = size_of_int (negsuc 0);
}

unfoldable pub deserialize_metadata : Bytes → Result SymbiosMetadata
unfolding read_id atoi_token bool_of_int deserialize_shadow
deserialize_metadata s = do
  let t₁ = strtok sep s
  id ← read_id t₁.0
  let t₂ = strtok sep t₁.1
  flag ← atoi_token t₂.0
  if bool_of_int flag then ok (primary_of id) else deserialize_shadow id t₂.1
