-- ===== src/ShadowLink/Mongo/Query.antt =====
-- A record that is created in MongoDB and queried again: it is shorter than one document.
use symbios.Base.{
  ℕ, ◌+◌, ◌≤◌, ◌<◌, ◌≡◌, ◌≢◌, ◌∙◌, sym, ap, false, some, [], ◌∷◌, ◌++◌, arith, length, ltb,
  length-append,
}
use symbios.Base.Int.{ℤ}
use symbios.Base.Result.{ok, ◌>>=◌}
use symbios.Base.Text.{Bytes, Lacks, codes}
use symbios.Base.Memory.{
  load, load_lem, c_string-append, c_string-patch, strcpy, store_lem, patch, take-length,
}
use symbios.Collection.{Collection, IsCollection, find_field, bytes_eq_self, bytes_eq-ne}
use symbios.ShadowLink.Serde.{
  SymbiosMetadata, metadata_size, serialize_metadata, deserialize_metadata, shadow_of,
}
use symbios.ShadowLink.Serde.Text.{
  record_text, record_text-Lacks, serialize_metadata-lt, serialize_metadata_fits,
}
use symbios.ShadowLink.Serde.RoundTrip.{IsField, Fits, kept_offset, deserialize-serialize_shadow}
use symbios.ShadowLink.Mongo.{
  document_of, insert_value, write_sized, write_mongo_sized, read_docs, read_sized,
  read_mongo_sized, create_symbios_metadata_mongo, query_symbios_metadata_by_id_mongo,
}

-- A document whose value is a text with its NUL.
read_docs-text :
    (key t mem : Bytes)
    → codes "_id" ≢ key
    → Lacks 0 t
    → length t < length mem
    → read_docs key 0 (document_of key (t ++ (0 ∷ [])) ∷ []) mem ≡ ok (patch mem 0 (t ++ (0 ∷ [])))
unfolding read_docs find_field strcpy
read_docs-text key t mem ne text room = rw (
  bytes_eq-ne (codes "_id") key ne,
  bytes_eq_self key,
  c_string-append t [] text,
  store_lem mem (t ++ (0 ∷ [])) 0 (omega (arith, length-append t (0 ∷ []))),
)

module _ (c : Collection) (laws : IsCollection c) where
  create-inserts :
      (m : SymbiosMetadata) (s : c.State) (t : Bytes)
      → serialize_metadata m ≡ ok t
      → create_symbios_metadata_mongo c m s ≡ ok (insert_value c m.data_id (t ++ (0 ∷ [])) s)
  unfolding create_symbios_metadata_mongo write_mongo_sized write_sized
  create-inserts m s t made = rw made (rw (small, whole))
    where
      small : ltb 8388608 (length t + 1) ≡ false
      small = ground (arith, serialize_metadata-lt m t made)

      whole : load (t ++ (0 ∷ [])) 0 (length t + 1) ≡ ok (t ++ (0 ∷ []))
      whole =
          load_lem (t ++ (0 ∷ [])) 0 (length t + 1) (omega (arith, length-append t (0 ∷ [])))
          ∙ ap (λ (l : Bytes). ok l)
              (take-length (t ++ (0 ∷ [])) (length t + 1) (omega (arith, length-append t (0 ∷ []))))

  query-inserted :
      (id : Bytes) (s : c.State) (t stack : Bytes)
      → c.find_by_id s id ≡ []
      → codes "_id" ≢ id
      → Lacks 0 t
      → length t < length stack
      → query_symbios_metadata_by_id_mongo c id (insert_value c id (t ++ (0 ∷ [])) s) stack
        ≡ deserialize_metadata t
  unfolding query_symbios_metadata_by_id_mongo read_mongo_sized read_sized insert_value
  query-inserted id s t stack new ne text room = rw (
    laws.finds s (document_of id (t ++ (0 ∷ []))) new,
    read_docs-text id t stack ne text room,
    c_string-patch t stack text,
  )

  -- In a collection that answers, a shadow record that fits, whose key is new and not `_id`, and whose
  -- key and server are fields without a NUL, is found again under its key; its offset is kept, in 32
  -- bits, only for the two file systems.
  pub query_mongo-create_mongo :
      (id server : Bytes) (target port : ℤ) (offset : ℕ) (s : c.State) (stack : Bytes)
      → c.find_by_id s id ≡ []
      → codes "_id" ≢ id
      → IsField id
      → IsField server
      → Lacks 0 id
      → Lacks 0 server
      → Fits id server target port offset
      → metadata_size ≤ length stack
      → (create_symbios_metadata_mongo c (shadow_of id target (some server) port offset) s >>= λ s'.
          query_symbios_metadata_by_id_mongo c id s' stack)
        ≡ ok (shadow_of id target (some server) port (kept_offset target offset))
  query_mongo-create_mongo id server target port offset s stack new ne hid hs tid ts fits room =
      ap (λ x. x >>= λ s'. query_symbios_metadata_by_id_mongo c id s' stack)
        (create-inserts (shadow_of id target (some server) port offset) s _ made)
      ∙ query-inserted id s (record_text (shadow_of id target (some server) port offset)) stack new
          ne (record_text-Lacks (shadow_of id target (some server) port offset) tid ts)
          (omega
            (arith, serialize_metadata-lt (shadow_of id target (some server) port offset) _ made))
      ∙ sym (ap (λ x. x >>= deserialize_metadata) made)
      ∙ deserialize-serialize_shadow id server target port offset hid hs fits
    where
      made :
          serialize_metadata (shadow_of id target (some server) port offset)
          ≡ ok (record_text (shadow_of id target (some server) port offset))
      made =
          serialize_metadata_fits (shadow_of id target (some server) port offset) fits.0 fits.1
            fits.2
