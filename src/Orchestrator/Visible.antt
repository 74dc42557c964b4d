-- ===== src/Orchestrator/Visible.antt =====
-- After a new object is stored, its metadata is found from every storage: directly on the primary
-- one, and behind a link on the others.
use mathlib.Core.Path.{subst}
use symbios.Base.{
  ℕ, ◌≡◌, ◌≢◌, ◌⊎◌, inl, inr, ◌∙◌, refl, sym, false, List, [], arith, length, ℕ_discrete,
}
use symbios.Base.Int.{eqb_ℤ}
use symbios.Base.Result.{ok}
use symbios.Base.Text.{Bytes}
use symbios.Base.Memory.{load_lem, take-length}
use symbios.Objects.{Data, DataDistribution, Metadata, Io, MsgPack, no_data}
use symbios.Orchestrator.{
  meta_id, text_of, without_buffer, store_new, read_metadata, primary_metadata, packed, put_data,
  store, store_by, locate, put_links, link_metadata, store_fresh, link_or_new, find_link,
}
use symbios.Orchestrator.Contract.{Absent, Holds, IsIo, NoBuffers, IsMsgPack, Among, Distinct}
use symbios.Orchestrator.Buffers.{store_new-NoBuffers}
use symbios.Orchestrator.Links.{Linked, Runs, put_links-Linked}

module _ (io : Io) (laws : IsIo io) (codec : MsgPack) (pack_laws : IsMsgPack codec) (max : ℕ)
    (solutions : List ℕ) (request : Data) (ds : List DataDistribution) (s : io.State)
    (dist : Distinct solutions)
    (new : (j : ℕ)
      → (j ≡ request.storage_index) ⊎ Among j solutions
      → Absent io s j (meta_id request.id)) where
  -- The metadata that `Store` makes for the new object, and its packed form.
  abbrev pub fresh_metadata : Metadata
  fresh_metadata = record {
    is_link = false;
    storage_index = request.storage_index;
    links = (store_new max ds []).1;
  }

  abbrev pub meta : Data
  meta = packed io codec max solutions (meta_id request.id) request.storage_index fresh_metadata

  abbrev link : Data
  link =
      packed io codec max solutions (meta_id request.id) 0
        (link_metadata io codec max solutions meta)

  read_metadata-Holds :
      (t : io.State) (q : Data) (m : Metadata)
      → NoBuffers m.links
      → Holds io t q.storage_index q.id (codec.pack m)
      → q.position ≡ 0
      → (q.data_size ≡ 0) ⊎ (q.data_size ≡ length (codec.pack m))
      → read_metadata io codec max solutions t q ≡ ok m
  unfolding read_metadata text_of
  read_metadata-Holds t q m nb h p z =
      rw
        (
          h q q refl p z p,
          load_lem (codec.pack m) 0 (length (codec.pack m)) (omega arith),
          take-length (codec.pack m) (length (codec.pack m)) (omega arith),
        )
        (pack_laws.unpack-pack m nb)

  abbrev query : ℕ → Data
  query j = record no_data { id = meta_id request.id; storage_index = j }

  abbrev after_meta : io.State
  after_meta = laws.after s request.storage_index (meta_id request.id) (codec.pack fresh_metadata)

  meta-Holds :
      Holds io after_meta request.storage_index (meta_id request.id) (codec.pack fresh_metadata)
  meta-Holds =
      laws.holds s request.storage_index (meta_id request.id) _
        (new request.storage_index (inl refl))

  links-put :
      Runs io laws codec max solutions link
        (codec.pack (link_metadata io codec max solutions meta))
        request.storage_index
        refl
        refl
        refl
        solutions
        after_meta
  links-put =
      put_links-Linked io laws codec max solutions link _ request.storage_index refl refl refl
        solutions after_meta dist
        (λ j m ne q d e.
          let (c, h) = new j (inr m) q d e in
          (c, laws.others s request.storage_index j (meta_id request.id) _ q d (inl ne) ∙ h))

  store-fresh :
      store io codec max solutions s request ds ≡ store_fresh io codec max solutions s request ds
  unfolding store locate primary_metadata read_metadata store_by
  store-fresh =
      let (c, h) =
        new request.storage_index (inl refl) (query request.storage_index)
          (query request.storage_index) refl in
      rw h

  abbrev pub link_bytes : Bytes
  link_bytes = codec.pack (link_metadata io codec max solutions meta)

  abbrev AllLinked : io.State → Type 0
  AllLinked s' =
      Linked io laws codec max solutions (meta_id request.id) link_bytes request.storage_index
        solutions after_meta s'

  fresh-runs :
      {s' : io.State}
      → put_links io codec max solutions link request.storage_index solutions after_meta ≡ ok s'
      → store_fresh io codec max solutions s request ds ≡ ok (s', (store_new max ds []).0)
  unfolding store_fresh put_data
  fresh-runs runs = rw (
    laws.writes s request.storage_index meta meta _ refl refl refl refl
        (new request.storage_index (inl refl)),
    runs,
  )

  -- Where the metadata is: on the primary storage, and behind a link on the other configured ones.
  pub record Located (t : io.State) : Type 0 where
    pub primary : Holds io t request.storage_index (meta_id request.id) (codec.pack fresh_metadata)
    pub linked :
        (j : ℕ)
        → j ≢ request.storage_index
        → Among j solutions
        → Holds io t j (meta_id request.id) link_bytes

  linked-Located : (t : io.State) → AllLinked t → Located t
  linked-Located t l = record {
    primary =
        λ q d e p z h. l.kept request.storage_index q d (inr (inl refl)) ∙ meta-Holds q d e p z h;
    linked = λ j ne m. l.there j m ne;
  }

  direct :
      (j : ℕ) (t : io.State)
      → Located t
      → j ≡ request.storage_index
      → primary_metadata io codec max solutions t (record request { storage_index = j })
        ≡ ok fresh_metadata
  unfolding primary_metadata
  direct j t l e = rw (
      read_metadata-Holds t (query j) fresh_metadata (store_new-NoBuffers max ds [] tt) held refl
        (inl refl))
    where
      held : Holds io t j (meta_id request.id) (codec.pack fresh_metadata)
      held =
          subst (λ k. Holds io t k (meta_id request.id) (codec.pack fresh_metadata)) (sym e)
            l.primary

  behind :
      (j : ℕ) (t : io.State)
      → Located t
      → j ≢ request.storage_index
      → Among j solutions
      → primary_metadata io codec max solutions t (record request { storage_index = j })
        ≡ ok fresh_metadata
  unfolding primary_metadata find_link link_or_new eqb_ℤ
  behind j t l ne m = rw (
    read_metadata-Holds t (query j) (link_metadata io codec max solutions meta) (refl, tt)
        (l.linked j ne m) refl (inl refl),
    read_metadata-Holds t (without_buffer meta) fresh_metadata (store_new-NoBuffers max ds [] tt)
        l.primary refl (inr refl),
  )

  -- Where the metadata is located, a request through a configured storage finds it.
  pub Located-visible :
      (t : io.State)
      → Located t
      → (j : ℕ) → (j ≡ request.storage_index) ⊎ Among j solutions
      → primary_metadata io codec max solutions t (record request { storage_index = j })
        ≡ ok fresh_metadata
  Located-visible t l j m = elim (ℕ_discrete j request.storage_index) [
    | yes e ↦ direct j t l e
    | no ne ↦ behind j t l ne (elim m [ inl p ↦ absurd (ne p) | inr a ↦ a ])
  ]

  -- Storing the object succeeds, locates the metadata, and leaves every other object as it was.
  pub store-Located :
      (s' : io.State) × (store io codec max solutions s request ds
        ≡ ok (s', (store_new max ds []).0))
      × Located s'
      × ((j : ℕ) (q d : Data) → q.id ≢ meta_id request.id → io.read j s' q d ≡ io.read j s q d)
  store-Located =
      let (s', runs, l) = links-put in
      (
        s',
        store-fresh ∙ fresh-runs runs,
        linked-Located s' l,
        λ j q d other.
            l.kept j q d (inr (inr other))
            ∙ laws.others s request.storage_index j (meta_id request.id) _ q d (inr other),
      )

  -- Another object that is written does not move the metadata.
  pub after-Located :
      (t : io.State) (i : ℕ) (id b : Bytes)
      → meta_id request.id ≢ id
      → Located t
      → Located (laws.after t i id b)
  after-Located t i id b ne l = record {
    primary = λ q d e p z h.
        laws.others t i request.storage_index id b q d (inr (λ same. ne (sym e ∙ same)))
        ∙ l.primary q d e p z h;
    linked = λ j n m q d e p z h.
        laws.others t i j id b q d (inr (λ same. ne (sym e ∙ same))) ∙ l.linked j n m q d e p z h;
  }

  -- With storages as `IsIo`, MessagePack as `IsMsgPack`, and distinct configured storages: storing an
  -- object whose metadata is absent on the primary storage and on every configured one succeeds;
  -- after it, a request for the object through any of them finds the same metadata.
  pub store-visible :
      (s' : io.State) × (store io codec max solutions s request ds
        ≡ ok (s', (store_new max ds []).0))
      × ((j : ℕ)
          → (j ≡ request.storage_index) ⊎ Among j solutions
          → primary_metadata io codec max solutions s' (record request { storage_index = j })
            ≡ ok fresh_metadata)
  store-visible =
      let (s', runs, l, others) = store-Located in (s', runs, λ j m. Located-visible s' l j m)
