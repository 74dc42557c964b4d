-- ===== src/Tests/ShadowLink.antt =====
-- The shadow-link library at small records and values.
use symbios.Base.{◌+◌, ◌<◌, ◌≡◌, refl, none, some, [], arith, length, take, replicate}
use symbios.Base.Int.{pos, int_of_size}
use symbios.Base.Result.{ok, err, null_pointer, ◌>>=◌}
use symbios.Base.Text.{Bytes, Lacks, codes, print_ℤ, print_ℕ}
use symbios.ShadowLink.Serde.{
  SymbiosMetadata, code_of, pfs1, is_pfs, metadata_size, shadow_of, primary_of, serialize_metadata,
  deserialize_metadata,
}
use symbios.ShadowLink.Serde.Text
use symbios.ShadowLink.Serde.RoundTrip
use symbios.ShadowLink.Serde.Shift
use symbios.ShadowLink.Mongo.{write_sized, read_sized}
use symbios.ShadowLink.Mongo.Write
use symbios.ShadowLink.Mongo.Read
use symbios.Tests.Doubles.{list_collection, list_collection-IsCollection, find_document}

abbrev key : Bytes
key = codes "file7"

abbrev server : Bytes
server = codes "node12"

key-IsField : RoundTrip.IsField key
key-IsField = (cc, omega arith)

server-IsField : RoundTrip.IsField server
server-IsField = (cc, omega arith)

fits :
    Text.IsInt (code_of pfs1)
    × Text.IsInt (pos 3334)
    × (length key + length server + 40 < metadata_size)
unfolding code_of
fits = ((omega arith, omega arith), (omega arith, omega arith), omega arith)

serialize_metadata_fits_example :
    serialize_metadata (shadow_of key (code_of pfs1) (some server) (pos 3334) 4096)
    ≡ ok (Text.record_text (shadow_of key (code_of pfs1) (some server) (pos 3334) 4096))
serialize_metadata_fits_example =
    Text.serialize_metadata_fits (shadow_of key (code_of pfs1) (some server) (pos 3334) 4096) fits.0
      fits.1 fits.2

serialize_metadata_lem_example :
    serialize_metadata (shadow_of key (code_of pfs1) none (pos 3334) 4096)
    ≡ ok (Text.record_text (shadow_of key (code_of pfs1) none (pos 3334) 4096))
unfolding code_of print_ℤ print_ℕ int_of_size
serialize_metadata_lem_example =
    Text.serialize_metadata_lem (shadow_of key (code_of pfs1) none (pos 3334) 4096)

deserialize-serialize_shadow_example :
    (serialize_metadata (shadow_of key (code_of pfs1) (some server) (pos 3334) 4096)
      >>= deserialize_metadata)
    ≡ ok (
        shadow_of key
          (code_of pfs1)
          (some server)
          (pos 3334)
          (RoundTrip.kept_offset (code_of pfs1) 4096))
deserialize-serialize_shadow_example =
    RoundTrip.deserialize-serialize_shadow key server (code_of pfs1) (pos 3334) 4096 key-IsField
      server-IsField fits

abbrev primary_record : SymbiosMetadata
primary_record = record (primary_of key) { server = some server; port = pos 80 }

primary-IsInt : Text.IsInt primary_record.target_stor
unfolding code_of
primary-IsInt = (omega arith, omega arith)

deserialize-serialize_no_server_example :
    (serialize_metadata (shadow_of key (code_of pfs1) none (pos 3334) 4096)
      >>= deserialize_metadata)
    ≡ err null_pointer
unfolding is_pfs
deserialize-serialize_no_server_example =
    Shift.deserialize-serialize_no_server key (code_of pfs1) (pos 3334) 4096 key-IsField fits.0
      fits.1 (omega arith)

abbrev value : Bytes
value = codes "abcdefghij"

write_sized_long_example :
    write_sized list_collection 4 key value 10 []
    ≡ ok (Write.put_pieces list_collection 4 key value 10 3 0 [])
write_sized_long_example =
    Write.write_sized_long list_collection 4 key value 10 (omega arith) (omega arith) (omega arith)
      (omega arith) 2 [] (omega arith) (omega arith) (omega arith)

value-Lacks : Lacks 0 value
value-Lacks = omega arith

read-write_sized_example :
    (mem' : Bytes) × ((write_sized list_collection 4 key value 10 [] >>= λ s'.
    read_sized list_collection 4 key 10 s' (replicate 16 7))
      ≡ ok mem')
    × (length mem' ≡ 16)
    × (take 10 mem' ≡ value)
unfolding find_document
read-write_sized_example =
    Read.read-write_sized list_collection 4 key value 10 (omega arith) (omega arith) (omega arith)
      (omega arith) value-Lacks list_collection-IsCollection 2 [] (replicate 16 7) (omega arith)
      (omega arith) (omega arith) (omega arith) (λ j h. refl)
