-- ===== src/IoFactory/AsIo.antt =====
-- The configured clients as the storages that the orchestrator and the server rely on.
use symbios.Base.{
  ℕ, ◌≡◌, ◌≢◌, ◌⊎◌, inl, inr, ◌∙◌, sym, refl, ap, Option, none, some, ℕ_discrete, length,
}
use symbios.Base.Result.{Result, ErrorCode, ok, err, thrown, ◌>>=◌}
use symbios.Base.Text.{Bytes}
use symbios.Objects.{Data, IoClientType, file_io, redis_io, mongo_io}
use symbios.Orchestrator.Contract.{IsIo}
use symbios.Storage.{IsStorage}
use symbios.Storage.Family.{update_self, update_ne}
use symbios.FileClient.{IsFileSystem}
use symbios.FileClient.AsStorage.{file_storage-IsStorage}
use symbios.RedisClient.{IsRedis}
use symbios.RedisClient.AsStorage.{redis_storage-IsStorage}
use symbios.MongoClient.{IsMongoStore}
use symbios.MongoClient.AsStorage.{mongo_storage-IsStorage}
use symbios.Distribution.{Solutions}
use symbios.IoFactory.{
  Backends, Stores, storage_of, put_state, slot, find_solution, client_by, get_io_client,
  factory_io, Separate,
}

module _ (b : Backends) where
  put_self :
      (s : Stores b) (t : IoClientType) (k : ℕ) (x : (storage_of b t).State)
      → put_state b s t k x t k ≡ x
  unfolding put_state
  put_self s file_io k x = update_self (s file_io) k x
  put_self s redis_io k x = update_self (s redis_io) k x
  put_self s mongo_io k x = update_self (s mongo_io) k x

  put_other :
      (s : Stores b) (t u : IoClientType) (k j : ℕ) (x : (storage_of b t).State)
      → (u ≢ t) ⊎ (j ≢ k)
      → put_state b s t k x u j ≡ s u j
  unfolding put_state
  put_other s file_io file_io k j x (inl ne) = absurd (ne refl)
  put_other s file_io file_io k j x (inr ne) = update_ne (s file_io) k j x ne
  put_other s file_io redis_io k j x h = refl
  put_other s file_io mongo_io k j x h = refl
  put_other s redis_io file_io k j x h = refl
  put_other s redis_io redis_io k j x (inl ne) = absurd (ne refl)
  put_other s redis_io redis_io k j x (inr ne) = update_ne (s redis_io) k j x ne
  put_other s redis_io mongo_io k j x h = refl
  put_other s mongo_io file_io k j x h = refl
  put_other s mongo_io redis_io k j x h = refl
  put_other s mongo_io mongo_io k j x (inl ne) = absurd (ne refl)
  put_other s mongo_io mongo_io k j x (inr ne) = update_ne (s mongo_io) k j x ne

module _ (b : Backends) (files : IsFileSystem b.files) (clusters : IsRedis b.redis)
    (collections : IsMongoStore b.mongo) where
  law_of : (t : IoClientType) → IsStorage (storage_of b t)
  unfolding storage_of
  law_of file_io = file_storage-IsStorage b.files files
  law_of redis_io = redis_storage-IsStorage b.redis clusters
  law_of mongo_io = mongo_storage-IsStorage b.mongo collections

  module _ (instance : IoClientType → ℕ → ℕ) (solutions : Solutions) where
    client : Option IoClientType → ℕ → Result (IoClientType × ℕ)
    unfolding client_by
    client o i = client_by b instance solutions o i

    read_at : Option IoClientType → ℕ → Stores b → Data → Data → Result Data
    unfolding client_by
    read_at o i s q d =
        client_by b instance solutions o i >>= λ c. (storage_of b c.0).read (s c.0 c.1) q d

    write_at : Option IoClientType → ℕ → Stores b → Data → Data → Result (Stores b)
    unfolding client_by
    write_at o i s q d = client_by b instance solutions o i >>= λ c.
        (storage_of b c.0).write (s c.0 c.1) q d >>= λ x. ok (put_state b s c.0 c.1 x)

    after_at : Option IoClientType → ℕ → Stores b → Bytes → Bytes → Stores b
    after_at none i s id v = s
    after_at (some t) i s id v =
        let k = slot b instance solutions t i in put_state b s t k ((law_of t).after (s t k) id v)

    writes_at :
        (o : Option IoClientType) (i : ℕ) (s : Stores b) (source d : Data) (v : Bytes)
        → source.buffer ≡ some v
        → source.position ≡ 0
        → source.data_size ≡ length v
        → d.position ≡ 0
        → ((q e : Data) → q.id ≡ d.id → (c : ErrorCode) × (read_at o i s q e ≡ err (thrown c)))
        → write_at o i s source d ≡ ok (after_at o i s d.id v)
    unfolding write_at after_at read_at client_by
    writes_at none i s source d v hb hp hs hd absent = let (c, h) = absent d d refl in absurd (cc h)
    writes_at (some t) i s source d v hb hp hs hd absent =
        let k = slot b instance solutions t i in
        ap (λ x. x >>= λ x. ok (put_state b s t k x))
          ((law_of t).writes (s t k) source d v hb hp hs hd absent)

    holds_at :
        (o : Option IoClientType) (i : ℕ) (s : Stores b) (id v : Bytes) (q d : Data)
        → ((q e : Data) → q.id ≡ id → (c : ErrorCode) × (read_at o i s q e ≡ err (thrown c)))
        → q.id ≡ id
        → q.position ≡ 0
        → (q.data_size ≡ 0) ⊎ (q.data_size ≡ length v)
        → d.position ≡ 0
        → read_at o i (after_at o i s id v) q d
          ≡ ok (record d { buffer = some v; data_size = length v })
    unfolding after_at read_at client_by
    holds_at none i s id v q d absent same start whole to_start =
        let (c, h) = absent q d same in absurd (cc h)
    holds_at (some t) i s id v q d absent same start whole to_start =
        let k = slot b instance solutions t i in
        ap (λ x. (storage_of b t).read x q d) (put_self b s t k ((law_of t).after (s t k) id v))
        ∙ (law_of t).holds (s t k) id v absent q d same start whole to_start

    -- Another object through the same client.
    others_at :
        (o : Option IoClientType) (i : ℕ) (s : Stores b) (id v : Bytes) (q d : Data)
        → q.id ≢ id
        → read_at o i (after_at o i s id v) q d ≡ read_at o i s q d
    unfolding after_at read_at client_by
    others_at none i s id v q d ne = refl
    others_at (some t) i s id v q d ne =
        let k = slot b instance solutions t i in
        ap (λ x. (storage_of b t).read x q d) (put_self b s t k ((law_of t).after (s t k) id v))
        ∙ (law_of t).others (s t k) id v q d ne

    -- Any object through a client that stores elsewhere.
    elsewhere_at :
        (o p : Option IoClientType) (i j : ℕ) (s : Stores b) (id v : Bytes) (q d : Data)
        → ((c e : IoClientType × ℕ)
            → client o i ≡ ok c
            → client p j ≡ ok e
            → (e.0 ≢ c.0) ⊎ (e.1 ≢ c.1))
        → read_at p j (after_at o i s id v) q d ≡ read_at p j s q d
    unfolding after_at read_at client client_by
    elsewhere_at none p i j s id v q d apart = refl
    elsewhere_at (some t) none i j s id v q d apart = refl
    elsewhere_at (some t) (some u) i j s id v q d apart =
        let k = slot b instance solutions t i in
        let l = slot b instance solutions u j in
        ap (λ x. (storage_of b u).read x q d)
          (put_other b s t u k l ((law_of t).after (s t k) id v) (apart (t, k) (u, l) refl refl))

    -- The configured clients keep the contract of the orchestrator, if no two indices share a place
    -- where they store.
    pub factory_io-IsIo : Separate b instance solutions → IsIo (factory_io b instance solutions)
    unfolding get_io_client read_at write_at client
    factory_io-IsIo separate = record {
      after = λ s i id v. after_at (kind i) i s id v;
      writes =
          λ s i source d v hb hp hs hd absent. writes_at (kind i) i s source d v hb hp hs hd absent;
      holds = λ s i id v absent q d same start whole to_start.
          holds_at (kind i) i s id v q d absent same start whole to_start;
      others = λ s i j id v q d h. elim (ℕ_discrete j i) [
        | yes e ↦
            ap (λ n. read_at (kind n) n (after_at (kind i) i s id v) q d) e
            ∙ others_at (kind i) i s id v q d
                (elim h [ inl ne ↦ absurd (ne e) | inr other ↦ other ])
            ∙ ap (λ n. read_at (kind n) n s q d) (sym e)
        | no ne ↦
            elsewhere_at (kind i) (kind j) i j s id v q d (λ c e hc he. separate i j c e hc he ne)
      ];
    }
      where
        kind : ℕ → Option IoClientType
        kind i = find_solution solutions i
