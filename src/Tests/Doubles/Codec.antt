-- ===== src/Tests/Doubles/Codec.antt =====
-- MessagePack as a list of numbers; buffers are not written.
use symbios.Base.{
  ℕ, zero, suc, ◌≡◌, ◌∙◌, refl, sym, ap, Bool, true, false, none, List, [], ◌∷◌, ◌++◌, length, take,
  drop, if◌then◌else◌,
}
use symbios.Base.Int.{ℤ, pos, negsuc}
use symbios.Base.Result.{Result, ok, err, out_of_bounds, ◌>>=◌}
use symbios.Base.Text.{Bytes}
use symbios.Objects.{Data, Metadata, MsgPack}
use symbios.Orchestrator.Contract.{NoBuffers, IsMsgPack}

unfoldable put_key : ℤ → Bytes → Bytes
put_key (pos n) rest = 0 ∷ n ∷ rest
put_key (negsuc n) rest = 1 ∷ n ∷ rest

unfoldable put_data : Data → Bytes → Bytes
put_data d rest = d.position ∷ d.data_size ∷ d.storage_index ∷ length d.id ∷ (d.id ++ rest)

unfoldable pub put_entries : List (ℤ × Data) → Bytes
unfolding put_key put_data
put_entries [] = []
put_entries ((k, d) ∷ links) = put_key k (put_data d (put_entries links))

unfoldable get_key : ℕ → ℕ → ℤ
get_key zero n = pos n
get_key (suc _) n = negsuc n

abbrev data_of : ℕ → ℕ → ℕ → Bytes → Data
data_of position size index id = record {
  id = id;
  position = position;
  buffer = none;
  data_size = size;
  storage_index = index;
}

-- `n` is the number of entries.
unfoldable get_entries : ℕ → Bytes → Result (List (ℤ × Data))
unfolding get_key
get_entries zero s = ok []
get_entries (suc n) (sign ∷ k ∷ position ∷ size ∷ index ∷ len ∷ s) =
    get_entries n (drop len s) >>= λ rest.
    ok ((get_key sign k, data_of position size index (take len s)) ∷ rest)
get_entries (suc n) _ = err out_of_bounds

unfoldable pub flag : ℕ → Bool
flag zero = false
flag (suc _) = true

unfoldable pub get_metadata : Bytes → Result Metadata
unfolding get_entries flag
get_metadata (link ∷ index ∷ n ∷ s) = get_entries n s >>= λ links.
    ok (record { is_link = flag link; storage_index = index; links = links })
get_metadata _ = err out_of_bounds

abbrev pub list_codec : MsgPack
list_codec = record {
  pack = λ m. (if m.is_link then 1 else 0) ∷ m.storage_index ∷ length m.links ∷ put_entries m.links;
  unpack = get_metadata;
}

take-prefix : (xs ys : Bytes) → take (length xs) (xs ++ ys) ≡ xs
take-prefix [] ys = refl
take-prefix (x ∷ xs) ys = ap (λ (l : Bytes). x ∷ l) (take-prefix xs ys)

drop-prefix : (xs ys : Bytes) → drop (length xs) (xs ++ ys) ≡ ys
drop-prefix [] ys = refl
drop-prefix (x ∷ xs) ys = drop-prefix xs ys

get-put_entries :
    (links : List (ℤ × Data))
    → NoBuffers links
    → get_entries (length links) (put_entries links) ≡ ok links
unfolding get_entries put_entries
get-put_entries [] h = refl
get-put_entries ((pos k, d) ∷ links) h =
    rw
      (
        drop-prefix d.id (put_entries links),
        take-prefix d.id (put_entries links),
        get-put_entries links h.1,
      )
      (ap (λ o. ok ((pos k, record d { buffer = o }) ∷ links)) (sym h.0))
get-put_entries ((negsuc k, d) ∷ links) h =
    rw
      (
        drop-prefix d.id (put_entries links),
        take-prefix d.id (put_entries links),
        get-put_entries links h.1,
      )
      (ap (λ o. ok ((negsuc k, record d { buffer = o }) ∷ links)) (sym h.0))

flag-test : (b : Bool) → flag (if b then 1 else 0) ≡ b
unfolding flag
flag-test true = refl
flag-test false = refl

pub list_codec-IsMsgPack : IsMsgPack list_codec
unfolding get_metadata
list_codec-IsMsgPack = record {
  unpack-pack = λ m h.
      ap
        (λ r. r >>= λ links. ok (record {
          is_link = flag (if m.is_link then 1 else 0);
          storage_index = m.storage_index;
          links = links;
        }))
        (get-put_entries m.links h)
      ∙ ap (λ b. ok (record { is_link = b; storage_index = m.storage_index; links = m.links }))
          (flag-test m.is_link);
}
