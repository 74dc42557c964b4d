-- ===== src/Server/Bound/EndToEnd.antt =====
-- What a client locates after it has stored a new object of one segment.
use symbios.Base.{
  ℕ, ◌+◌, ◌%◌, ◌^◌, ◌<◌, ◌≤◌, ◌≡◌, ◌⊎◌, inr, ◌∙◌, refl, ap, some, List, [], ◌∷◌, ◌++◌, arith,
  length, ==-false,
}
use symbios.Base.Result.{ok}
use symbios.Base.Text.{Bytes, codes}
use symbios.Base.Memory.{load_lem, take-length}
use symbios.Objects.{Data, Io, MsgPack, no_data}
use symbios.Packing.RoundTrip.{Fits, convert-pack_data, sent_buffer}
use symbios.Distribution.{Policy, Solutions, distribute, place}
use symbios.Orchestrator.{meta_id}
use symbios.Orchestrator.Contract.{Absent, IsIo, IsMsgPack, Among, Distinct}
use symbios.Client.{pick_server, copy_reply, store_request, locate_request}
use symbios.Server.StoreLocate
use symbios.Server.Bound.{over_wire, Cluster, server_rpc}

-- Data arrives as it is, if its fields fit and its buffer is as large as it says, or NULL.
over_wire-same :
    (d : Data) → Fits d → sent_buffer d.buffer d.data_size ≡ d.buffer → over_wire d ≡ ok d
unfolding over_wire
over_wire-same d fits whole =
    convert-pack_data d fits ∙ ap (λ x. ok (record d { buffer = x })) whole

sent_whole : (b : Bytes) → 0 < length b → sent_buffer (some b) (length b) ≡ some b
unfolding sent_buffer
sent_whole [] h = absurd (omega (arith, h))
sent_whole (c ∷ b) h = ap some (take-length (c ∷ b) (length (c ∷ b)) (omega arith))

module _ (io : Io) (laws : IsIo io) (codec : MsgPack) (pack_laws : IsMsgPack codec) (max : ℕ)
    (indices : List ℕ) (some_max : 0 < max) (dist : Distinct indices) (policy : Policy)
    (random next : ℕ → ℕ) (solutions : Solutions) (server_count num_servers : ℕ)
    (some_server : 0 < num_servers) where
  module _ (id b : Bytes) (primary i : ℕ) (s : Cluster io) (some_bytes : 0 < length b)
      (fits : length b ≤ max) (small : length b < 2 ^ 64) (indexed : primary < 2 ^ 16)
      (new : (j : ℕ) → (j ≡ primary) ⊎ Among j indices → Absent io s.stores j (meta_id id))
      (new_segment : Absent io s.stores i (id ++ codes "0")) where
    abbrev pub source : Data
    source = record no_data {
      id = id;
      buffer = some b;
      data_size = length b;
      storage_index = primary;
    }

    abbrev pub request : ℕ → Data
    request j = record no_data { id = id; data_size = length b; storage_index = j }

    picks :
        (t : Cluster io)
        → pick_server
            (server_rpc io codec max indices policy random next solutions server_count)
            num_servers
            t
          ≡ ok (random t.drawn % num_servers, record t { drawn = t.drawn + 1 })
    unfolding pick_server
    picks t = rw (==-false num_servers 0 (omega (arith, some_server)))

    source-sent : over_wire source ≡ ok source
    source-sent =
        over_wire-same source (omega arith, small, indexed, omega arith) (sent_whole b some_bytes)

    request-sent : (j : ℕ) → j < 2 ^ 16 → over_wire (request j) ≡ ok (request j)
    unfolding sent_buffer
    request-sent j h = over_wire-same (request j) (omega arith, small, h, tt) refl

    answer-sent :
        (j : ℕ)
        → j < 2 ^ 16
        → over_wire (record (request j) { buffer = some b })
          ≡ ok (record (request j) { buffer = some b })
    answer-sent j h =
        over_wire-same (record (request j) { buffer = some b }) (omega arith, small, h, omega arith)
          (sent_whole b some_bytes)

    answer-copied :
        (j : ℕ)
        → copy_reply (record (request j) { buffer = some b }) (request j)
          ≡ ok (record (request j) { buffer = some b })
    unfolding copy_reply
    answer-copied j =
        rw (load_lem b 0 (length b) (omega arith), take-length b (length b) (omega arith))

    -- With storages as `IsIo` and MessagePack as `IsMsgPack`, distinct configured storages, at least
    -- one server and a size of segments that is not 0: a client stores a new object of at most one
    -- segment and at least one byte, if its size and its storage fit their types, its metadata is
    -- absent on its primary storage and the configured ones, and its segment on the storage that the
    -- policy selects. It then gets the bytes back through any of these storages, whichever server it
    -- asks, if it asks with the size and without a buffer.
    pub store-locate_request :
        distribute policy
            (random (s.drawn + 1))
            (next (s.drawn + 1))
            solutions
            source
            (request primary)
          ≡ ok (place source (request primary) i)
        → (s' : Cluster io) × (store_request
              (server_rpc io codec max indices policy random next solutions server_count)
              num_servers
              s
              source
              (request primary)
            ≡ ok s')
          × ((j : ℕ)
              → (j ≡ primary) ⊎ Among j indices
              → j < 2 ^ 16
              → locate_request
                  (server_rpc io codec max indices policy random next solutions server_count)
                  num_servers
                  s'
                  (request j)
                  (request j)
                ≡ ok (record (request j) { buffer = some b }, record s' { drawn = s'.drawn + 1 }))
    unfolding store_request locate_request
    store-locate_request selects =
        let (t, stores, locates) =
          StoreLocate.store-locate io laws codec pack_laws max indices some_max dist id b primary i
            s.stores fits new new_segment policy (random (s.drawn + 1)) (next (s.drawn + 1))
            solutions server_count selects in
        (
          record { drawn = s.drawn + 1; stores = t },
          rw (picks s, source-sent, request-sent primary indexed, stores),
          λ j m h. rw (
            picks (record { drawn = s.drawn + 1; stores = t }),
            request-sent j h,
            locates j (length b) (request j) m (inr refl),
            answer-sent j h,
            answer-copied j,
          ),
        )
