-- ===== src/ShadowLink/Mongo.antt =====
-- old/internal_component/shadow_link/io_mongo.c: values in a MongoDB collection, cut into documents
-- of at most MAX_DOC_SIZE bytes. The bound is a parameter; `max_doc_size` is the program's.
pub mod Write
pub mod Documents
pub mod Read
pub mod Query
use symbios.Base.{
  ℕ, zero, suc, ◌+◌, ◌-◌, ◌*◌, ◌/◌, ◌%◌, ◌^◌, ◌≡◌, Bool, Option, none, some, List, [], ◌∷◌, ◌++◌,
  ltb, if◌then◌else◌, length,
}
use symbios.Base.Result.{Result, ok, err, aborted, uninitialised, overflow, out_of_fuel, ◌>>=◌}
use symbios.Base.Text.{Bytes, codes, print_ℕ, strcat}
use symbios.Base.Memory.{load, strcpy, c_string}
use symbios.Collection.{Document, Collection, find_field}
use symbios.ShadowLink.Serde.{
  SymbiosMetadata, metadata_size, serialize_metadata, deserialize_metadata,
}

-- MAX_DOC_SIZE
abbrev pub max_doc_size : ℕ
max_doc_size = 8388608

-- What each call of libmongoc answers while a connection is made.
pub record Attempt : Type 0 where
  pub uri_parses : Bool
  pub client_created : Bool
  pub ping_answered : Bool

-- EXIT_FAILURE on each refusal. Behind them `bson_destroy(insert)` is called on a pointer that was
-- never set, so a connection that succeeds has no defined result.
unfoldable pub connect_to_mongo_db_server_with_uri : Attempt → Result ℕ
connect_to_mongo_db_server_with_uri a =
    if a.uri_parses
    then if a.client_created then if a.ping_answered then err uninitialised else ok 1 else ok 1
    else ok 1

-- `sprintf(sub_key_str, "%s_%d", key_str, count)`
unfoldable pub sub_key : Bytes → ℕ → Result Bytes
unfolding strcat
sub_key key count = strcat 1024 [] (key ++ (b'_' ∷ print_ℕ count))

-- The sum of two sizes as an `int`, which may not overflow.
unfoldable pub int_sum : ℕ → ℕ → Result ℕ
int_sum a b = if ltb (a + b) (2 ^ 31) then ok (a + b) else err overflow

-- The document for one key: its `_id`, and the value under the key's own name.
abbrev pub document_of : Bytes → Bytes → Document
document_of key value = record { id = key; fields = (codes "_id", key) ∷ (key, value) ∷ [] }

-- The documents that the cursor yields, in turn: each value found is copied to the same place.
unfoldable pub read_docs : Bytes → ℕ → List Document → Bytes → Result Bytes
read_docs key off [] mem = ok mem
read_docs key off (d ∷ ds) mem = elim (find_field key d.fields) [
  | none ↦ read_docs key off ds mem
  | some v ↦ strcpy mem off v >>= read_docs key off ds
]

module _ (c : Collection) where
  open c use {State, insert_one, find_by_id}

  -- `pid` and `random` are what `getpid` and `rand` return; `id` has room for 29 bytes.
  unfoldable pub write_mongo : Bytes → ℕ → ℕ → State → Result State
  unfolding strcat
  write_mongo key pid random s = do
    id ← strcat 30 [] (key ++ (print_ℕ pid ++ print_ℕ random))
    ok
        (insert_one s
          (record { id = id; fields = (codes "_id", id) ∷ (key, codes "mongodb") ∷ [] })).1

  -- An insert that fails is reported and the loop goes on.
  unfoldable pub insert_value : Bytes → Bytes → State → State
  insert_value key value s = (insert_one s (document_of key value)).1

  module _ (max : ℕ) where
    -- The loop over the documents of one value, which adds `max` to what it has stored as an `int`.
    unfoldable pub write_subs : ℕ → Bytes → Bytes → ℕ → ℕ → ℕ → ℕ → State → Result State
    write_subs zero key buf len count finished sub s = err out_of_fuel
    write_subs (suc fuel) key buf len count finished sub s =
        let finished' = finished + sub in
        let next = (do
          k ← sub_key key count
          value ← load buf finished sub
          end ← int_sum finished' max
          write_subs fuel key buf len (count + 1) finished' (if ltb len end then len % max else sub)
              (insert_value k value s)) in
        if ltb finished len then next else ok s

    unfoldable pub write_sized : Bytes → Bytes → ℕ → State → Result State
    write_sized key buf len s =
        if ltb max len
        then write_subs (suc len) key buf len 0 0 max s
        else load buf 0 len >>= λ value. ok (insert_value key value s)

  unfoldable pub write_mongo_sized : Bytes → Bytes → ℕ → State → Result State
  write_mongo_sized = write_sized max_doc_size

  module _ (max : ℕ) where
    -- The rounds `i .. i + n`; the destination moves on by `max` with each.
    unfoldable pub read_subs : ℕ → ℕ → ℕ → Bytes → State → Bytes → Result Bytes
    read_subs zero i off key s mem = ok mem
    read_subs (suc n) i off key s mem = do
      k ← sub_key key i
      mem' ← read_docs k off (find_by_id s k) mem
      read_subs n (i + 1) (off + max) key s mem'

    unfoldable pub read_sized : Bytes → ℕ → State → Bytes → Result Bytes
    read_sized key len s mem =
        if ltb max len
        then read_subs ((len + max - 1) / max) 0 0 key s mem
        else read_docs key 0 (find_by_id s key) mem

  unfoldable pub read_mongo_sized : Bytes → ℕ → State → Bytes → Result Bytes
  read_mongo_sized = read_sized max_doc_size

  -- The text is written with its NUL.
  unfoldable pub create_symbios_metadata_mongo : SymbiosMetadata → State → Result State
  create_symbios_metadata_mongo m s = do
    t ← serialize_metadata m
    write_mongo_sized m.data_id (t ++ (0 ∷ [])) (length t + 1) s

  -- `stack` is what the 1024 bytes of the local buffer hold before the read.
  unfoldable pub query_symbios_metadata_by_id_mongo : Bytes → State → Bytes → Result SymbiosMetadata
  query_symbios_metadata_by_id_mongo id s stack = do
    mem ← read_mongo_sized id metadata_size s stack
    deserialize_metadata (c_string mem)
