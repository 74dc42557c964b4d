-- ===== src/Packing.antt =====
-- The adaptors of include/symbios/common/data_structure.h: how MessagePack (clmdep_msgpack) packs
-- `Data` and `Metadata` into arrays, and how it converts the arrays back.
pub mod RoundTrip
use symbios.Base.{
  ℕ, zero, suc, ◌^◌, Bool, Option, none, some, List, [], ◌∷◌, ◌++◌, ltb, if◌then◌else◌,
}
use symbios.Base.Int.{ℤ}
use symbios.Base.Result.{Result, ok, err, foreign, out_of_bounds, ◌>>=◌}
use symbios.Base.Text.{Bytes}
use symbios.Base.Memory.{load}
use symbios.Objects.{Data, Metadata, no_data}

-- The objects that the entries of an array are.
pub data Scalar : Type 0 where
  flag : Bool → Scalar
  number : ℕ → Scalar
  text : Bytes → Scalar

pub data Part : Type 0 where
  scalar : Scalar → Part
  table : List (ℤ × List Scalar) → Part

-- `o.via.array.ptr[i]`, which nothing checks.
unfoldable pub ptr {ℓ} : {A : Type ℓ} → List A → ℕ → Result A
ptr [] i = err out_of_bounds
ptr (x ∷ xs) zero = ok x
ptr (x ∷ xs) (suc i) = ptr xs i

-- `as<T>`. An object of another type is an exception of the library.
unfoldable pub as_flag : Scalar → Result Bool
as_flag (flag b) = ok b
as_flag _ = err foreign

unfoldable pub as_number : ℕ → Scalar → Result ℕ
as_number width (number n) = if ltb n (2 ^ width) then ok n else err foreign
as_number width _ = err foreign

unfoldable pub as_text : Scalar → Result Bytes
as_text (text s) = ok s
as_text _ = err foreign

unfoldable pub as_scalar : Part → Result Scalar
as_scalar (scalar s) = ok s
as_scalar (table t) = err foreign

unfoldable pub as_table : Part → Result (List (ℤ × List Scalar))
as_table (scalar s) = err foreign
as_table (table t) = ok t

-- `pack<Data>`
unfoldable pub packed_buffer : Option Bytes → ℕ → Result Bytes
packed_buffer none n = ok []
packed_buffer (some b) n = load b 0 n

unfoldable pub pack_data : Data → Result (List Scalar)
unfolding packed_buffer
pack_data d = packed_buffer d.buffer d.data_size >>= λ b.
    ok (text d.id ∷ number d.position ∷ text b ∷ number d.data_size ∷ number d.storage_index ∷ [])

-- The buffer after `convert<Data>`: of a text that is not empty, which has a NUL behind it, the
-- number of bytes that the next entry says.
unfoldable pub converted_buffer : Bytes → ℕ → Option Bytes → Result (Option Bytes)
converted_buffer [] n buffer = ok buffer
converted_buffer (c ∷ s) n buffer = load ((c ∷ s) ++ (0 ∷ [])) 0 n >>= λ b. ok (some b)

-- `convert<Data>`, onto the data that it is given.
unfoldable pub convert_data : List Scalar → Data → Result Data
unfolding ptr as_number as_text converted_buffer
convert_data o input = ptr o 0 >>= as_text >>= λ id. ptr o 1 >>= as_number 64 >>= λ position.
    ptr o 2 >>= as_text >>= λ bytes. ptr o 3 >>= as_number 64 >>= λ data_size.
    converted_buffer bytes data_size input.buffer >>= λ buffer.
    ptr o 4 >>= as_number 16 >>= λ storage_index. ok (record {
      id = id;
      position = position;
      buffer = buffer;
      data_size = data_size;
      storage_index = storage_index;
    })

unfoldable pub pack_links : List (ℤ × Data) → Result (List (ℤ × List Scalar))
unfolding pack_data
pack_links [] = ok []
pack_links ((k, d) ∷ links) = pack_data d >>= λ o. pack_links links >>= λ rest. ok ((k, o) ∷ rest)

unfoldable pub convert_links : List (ℤ × List Scalar) → Result (List (ℤ × Data))
unfolding convert_data
convert_links [] = ok []
convert_links ((k, o) ∷ links) =
    convert_data o no_data >>= λ d. convert_links links >>= λ rest. ok ((k, d) ∷ rest)

-- `pack<Metadata>`
unfoldable pub pack_metadata : Metadata → Result (List Part)
unfolding pack_links
pack_metadata m = pack_links m.links >>= λ links.
    ok (scalar (flag m.is_link) ∷ table links ∷ scalar (number m.storage_index) ∷ [])

-- `convert<Metadata>`
unfoldable pub convert_metadata : List Part → Result Metadata
unfolding ptr as_flag as_number as_scalar as_table convert_links
convert_metadata o = ptr o 0 >>= as_scalar >>= as_flag >>= λ is_link.
    ptr o 1 >>= as_table >>= convert_links >>= λ links.
    ptr o 2 >>= as_scalar >>= as_number 16 >>= λ storage_index.
    ok (record { is_link = is_link; storage_index = storage_index; links = links })
