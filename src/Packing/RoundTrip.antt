-- ===== src/Packing/RoundTrip.antt =====
-- What MessagePack's adaptors carry from the sender to the receiver.
use symbios.Base.{
  ℕ, zero, suc, ◌^◌, ◌<◌, ◌≤◌, ◌≡◌, refl, Option, none, some, List, [], ◌∷◌, ◌++◌, length, take,
  length-append, length-take, arith,
}
use symbios.Base.Int.{ℤ}
use symbios.Base.Result.{ok, ◌>>=◌, >>=_inv}
use symbios.Base.Text.{Bytes}
use symbios.Base.Memory.{load_lem, slice-append, take-take}
use symbios.Objects.{Data, Metadata, no_data}
use symbios.Packing.{
  number, ptr, as_flag, as_number, as_text, as_scalar, as_table, packed_buffer, pack_data,
  converted_buffer, convert_data, pack_links, convert_links, pack_metadata, convert_metadata,
}

-- The fields fit the C++ types, and the buffer has the bytes that are packed.
abbrev pub Holds : Option Bytes → ℕ → Type 0
Holds none n = Unit
Holds (some b) n = n ≤ length b

abbrev pub Fits : Data → Type 0
Fits d =
    (d.position < 2 ^ 64)
    × (d.data_size < 2 ^ 64)
    × (d.storage_index < 2 ^ 16)
    × Holds d.buffer d.data_size

abbrev pub AllFit : List (ℤ × Data) → Type 0
AllFit [] = Unit
AllFit ((k, d) ∷ links) = Fits d × AllFit links

-- What is left of a buffer: `data_size` bytes, and NULL if that is none.
unfoldable pub sent_buffer : Option Bytes → ℕ → Option Bytes
sent_buffer none n = none
sent_buffer (some b) zero = none
sent_buffer (some b) (suc n) = some (take (suc n) b)

abbrev pub sent : Data → Data
sent d = record d { buffer = sent_buffer d.buffer d.data_size }

abbrev pub sent_links : List (ℤ × Data) → List (ℤ × Data)
sent_links [] = []
sent_links ((k, d) ∷ links) = (k, sent d) ∷ sent_links links

as_number_lem : (w n : ℕ) → n < 2 ^ w → as_number w (number n) ≡ ok n
unfolding as_number
as_number_lem w n h = ground arith

buffer_lem :
    (b : Option Bytes) (n : ℕ)
    → Holds b n
    → (packed_buffer b n >>= λ bytes. converted_buffer bytes n none) ≡ ok (sent_buffer b n)
unfolding packed_buffer converted_buffer sent_buffer
buffer_lem none n h = refl
buffer_lem (some b) zero h = rw (load_lem b 0 0 (omega arith))
buffer_lem (some []) (suc n) h = absurd (omega (arith, h))
buffer_lem (some (c ∷ b)) (suc n) h = rw (
  load_lem (c ∷ b) 0 (suc n) (omega (arith, h)),
  load_lem ((c ∷ take n b) ++ (0 ∷ [])) 0 (suc n)
      (omega (arith, length-append (c ∷ take n b) (0 ∷ []), length-take n b, h)),
  slice-append (c ∷ take n b) (0 ∷ []) 0 (suc n) (omega (arith, length-take n b, h)),
  take-take b n n (omega arith),
)

-- What a receiver converts into new data is what the sender packed, with the buffer cut to
-- `data_size` bytes, and NULL if those are none: provided that the fields fit their types and that
-- the buffer has the bytes.
pub convert-pack_data :
    (d : Data) → Fits d → (pack_data d >>= λ o. convert_data o no_data) ≡ ok (sent d)
unfolding pack_data convert_data ptr as_text
convert-pack_data d (small, sized, indexed, holds) =
    let (bytes, packs, converts) =
      >>=_inv (packed_buffer d.buffer d.data_size) (λ b. converted_buffer b d.data_size none)
        (sent_buffer d.buffer d.data_size) (buffer_lem d.buffer d.data_size holds) in
    rw (
      packs,
      as_number_lem 64 d.position small,
      as_number_lem 64 d.data_size sized,
      converts,
      as_number_lem 16 d.storage_index indexed,
    )

pub convert-pack_links :
    (links : List (ℤ × Data))
    → AllFit links
    → (pack_links links >>= convert_links) ≡ ok (sent_links links)
unfolding pack_links convert_links
convert-pack_links [] h = refl
convert-pack_links ((k, d) ∷ links) (h, hs) =
    let (o, packs, converts) =
      >>=_inv (pack_data d) (λ o. convert_data o no_data) (sent d) (convert-pack_data d h) in
    let (os, pack_rest, convert_rest) =
      >>=_inv (pack_links links) convert_links (sent_links links) (convert-pack_links links hs) in
    rw (packs, pack_rest, converts, convert_rest)

-- Metadata whose data fit come back with each buffer cut likewise.
pub convert-pack_metadata :
    (m : Metadata)
    → AllFit m.links
    → m.storage_index < 2 ^ 16
    → (pack_metadata m >>= convert_metadata) ≡ ok (record m { links = sent_links m.links })
unfolding pack_metadata convert_metadata ptr as_flag as_scalar as_table
convert-pack_metadata m h small =
    let (links, packs, converts) =
      >>=_inv (pack_links m.links) convert_links (sent_links m.links)
        (convert-pack_links m.links h) in
    rw (packs, converts, as_number_lem 16 m.storage_index small)
