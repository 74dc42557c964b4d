-- ===== src/Server/StoreLocate.antt =====
-- What a server locates after it has stored a new object of one segment.
use symbios.Base.{
  ℕ, ◌/◌, ◌<◌, ◌≤◌, ◌≡◌, ◌≢◌, ◌⊎◌, inl, inr, ◌∙◌, refl, sym, ap, false, some, List, [], ◌∷◌, ◌++◌,
  arith, length,
}
use symbios.Base.Result.{ok, ◌>>=◌, >>=_inv}
use symbios.Base.Text.{Bytes, codes, print_ℕ}
use symbios.Base.Memory.{append_cancel}
use symbios.Objects.{Data, DataDistribution, Io, MsgPack, no_data}
use symbios.Distribution.{Policy, Solutions, distribute, place}
use symbios.Orchestrator
use symbios.Orchestrator.{
  meta_id, without_buffer, store_new, name_segment, insert_link, add_unless, find_link,
}
use symbios.Orchestrator.Segments.{links_of, fill_links, repeat_data, distribution_of}
use symbios.Orchestrator.Contract.{Absent, IsIo, IsMsgPack, Among, Distinct}
use symbios.Orchestrator.Visible.{Located, Located-visible, store-Located, after-Located}
use symbios.Server.{concat_parts, write_all, store, read_all, locate}
use symbios.Server.OneSegment.{zero_div, zero_mod, distributions_for-one, part_of-whole, store-one}

inject : {ds es : List DataDistribution} → ok ds ≡ ok es → ds ≡ es
inject e = cc e

segment_id-ne : (id : Bytes) → meta_id id ≢ id ++ codes "0"
segment_id-ne id same = cc (append_cancel id (codes "_meta") (codes "0") same)

module _ (io : Io) (laws : IsIo io) (codec : MsgPack) (pack_laws : IsMsgPack codec) (max : ℕ)
    (indices : List ℕ) (some_bytes : 0 < max) (dist : Distinct indices) where
  -- An object whose buffer is the whole of the bytes, on its primary storage.
  module _ (id b : Bytes) (primary i : ℕ) (s : io.State) (fits : length b ≤ max)
      (new : (j : ℕ) → (j ≡ primary) ⊎ Among j indices → Absent io s j (meta_id id))
      (new_segment : Absent io s i (id ++ codes "0")) where
    abbrev pub source : Data
    source = record no_data {
      id = id;
      buffer = some b;
      data_size = length b;
      storage_index = primary;
    }

    abbrev pub request : ℕ → ℕ → Data
    request j n = record no_data { id = id; data_size = n; storage_index = j }

    abbrev pub destination : Data
    destination = request primary (length b)

    abbrev placed : List DataDistribution
    placed = place source destination i

    -- The place of the one segment, as the orchestrator names it.
    abbrev segment : Data
    segment =
        (name_segment max (record {
          source_data = source;
          destination_data = record destination { storage_index = i };
          storage_index = primary;
        })).destination_data

    segment-id : segment.id ≡ id ++ codes "0"
    unfolding name_segment print_ℕ
    segment-id = rw (zero_div max some_bytes)

    links-one :
        links_of
          (record { is_link = false; storage_index = primary; links = (store_new max placed []).1 })
        ≡ ok (without_buffer segment ∷ [])
    unfolding links_of fill_links repeat_data store_new name_segment insert_link find_link
        add_unless place
    links-one = store-one (0 / max) (without_buffer segment) (zero_div max some_bytes)

    -- The one distribution of a request of the object.
    found : ℕ → DataDistribution
    found n = distribution_of max (without_buffer segment) 0 n 0

    locate-one :
        (t : io.State) (j n : ℕ)
        → Located io laws codec pack_laws max indices destination placed s dist new t
        → (j ≡ primary) ⊎ Among j indices
        → n ≤ max
        → (Orchestrator.locate io codec max indices t (request j n) >>= λ r. ok r.0)
          ≡ ok (found n ∷ [])
    unfolding Orchestrator.locate Orchestrator.primary_metadata found
    locate-one t j n l m small = rw (
      Located-visible io laws codec pack_laws max indices destination placed s dist new t l j m,
      links-one,
      distributions_for-one max (request j n) (without_buffer segment) some_bytes refl small,
    )

    -- The state after the segment is written.
    abbrev written : io.State → io.State
    written t = laws.after t i segment.id b

    read-one :
        (t : io.State) (n : ℕ)
        → Absent io t i segment.id
        → (n ≡ 0) ⊎ (n ≡ length b)
        → (read_all io codec max indices (found n ∷ []) (written t) >>= concat_parts) ≡ ok b
    unfolding read_all found distribution_of name_segment
    read-one t n absent whole =
        let q = (found n).source_data in
        let d = (found n).destination_data in
        ap (λ x. (x >>= λ answer. ok (answer ∷ [])) >>= concat_parts)
          (laws.holds t i segment.id b absent q d refl refl whole refl)
        ∙ part_of-whole (record d { buffer = some b; data_size = length b }) b refl refl refl

    written-all :
        (t : io.State)
        → Absent io t i segment.id
        → write_all io codec max indices (store_new max placed []).0 t ≡ ok (written t)
    unfolding write_all store_new name_segment place
    written-all t absent =
        ap (λ x. x >>= λ t. ok t)
          (laws.writes t i source segment b refl refl refl (zero_mod max some_bytes) absent)

    short : (n : ℕ) → (n ≡ 0) ⊎ (n ≡ length b) → n ≤ max
    short n (inl e) = omega (arith, e)
    short n (inr e) = omega (arith, e, fits)

    locates :
        (t : io.State) (j n : ℕ) (answer : Data)
        → Located io laws codec pack_laws max indices destination placed s dist new (written t)
        → Absent io t i segment.id
        → (j ≡ primary) ⊎ Among j indices
        → (n ≡ 0) ⊎ (n ≡ length b)
        → locate io codec max indices (written t) (request j n) answer
          ≡ ok (record answer { buffer = some b })
    unfolding locate
    locates t j n answer l absent m whole =
        let (r, finds, one) =
          >>=_inv (Orchestrator.locate io codec max indices (written t) (request j n)) (λ r. ok r.0)
            (found n ∷ []) (locate-one (written t) j n l m (short n whole)) in
        let (answers, reads, joins) =
          >>=_inv (read_all io codec max indices (found n ∷ []) (written t)) concat_parts b
            (read-one t n absent whole) in
        rw (finds) (
          ap
            (λ ds. read_all io codec max indices ds (written t) >>= λ answers.
              concat_parts answers >>= λ b. ok (record answer { buffer = some b }))
            (inject one)
          ∙ ap
              (λ x. x >>= λ answers.
                concat_parts answers >>= λ b. ok (record answer { buffer = some b }))
              reads
          ∙ ap (λ x. x >>= λ b. ok (record answer { buffer = some b })) joins)

    segment-Absent :
        (t : io.State)
        → ((j : ℕ) (q d : Data) → q.id ≢ meta_id id → io.read j t q d ≡ io.read j s q d)
        → Absent io t i segment.id
    segment-Absent t others q d same =
        let at = same ∙ segment-id in
        let (c, h) = new_segment q d at in
        (c, others i q d (λ meta. segment_id-ne id (sym meta ∙ at)) ∙ h)

    -- With storages as `IsIo` and MessagePack as `IsMsgPack`, distinct configured storages and a
    -- size of segments that is not 0: a new object of at most one segment, with its whole buffer, is
    -- stored, if its metadata is absent on its primary storage and the configured ones, and its
    -- segment on the storage that the policy selects. A request for the whole object through any of
    -- these storages, by its size or by size 0, is then answered by the bytes that were stored.
    pub store-locate :
        (policy : Policy) (random next : ℕ) (solutions : Solutions) (server_count : ℕ)
        → distribute policy random next solutions source destination ≡ ok placed
        → (s' : io.State) × (store io codec max indices policy random next solutions server_count s
              source destination
            ≡ ok (server_count, s'))
          × ((j n : ℕ) (answer : Data)
              → (j ≡ primary) ⊎ Among j indices
              → (n ≡ 0) ⊎ (n ≡ length b)
              → locate io codec max indices s' (request j n) answer
                ≡ ok (record answer { buffer = some b }))
    unfolding store
    store-locate policy random next solutions server_count selects =
        let (t, stores, l, others) =
          store-Located io laws codec pack_laws max indices destination placed s dist new in
        let absent = segment-Absent t others in
        (
          written t,
          rw (selects, stores, written-all t absent),
          λ j n answer m whole.
              locates t j n answer
                (after-Located io laws codec pack_laws max indices destination placed s dist new t i
                  (segment.id) b (λ same. segment_id-ne id (same ∙ segment-id)) l)
                absent m whole,
        )
