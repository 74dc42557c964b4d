-- ===== src/Orchestrator/Contract.antt =====
-- What the orchestrator relies on in the storage clients and in MessagePack.
use symbios.Base.{ℕ, ◌≡◌, ◌≢◌, ◌⊎◌, some, none, List, [], ◌∷◌, length}
use symbios.Base.Int.{ℤ}
use symbios.Base.Result.{ErrorCode, ok, err, thrown}
use symbios.Base.Text.{Bytes}
use symbios.Objects.{Data, Metadata, Io, MsgPack}

module _ (io : Io) where
  -- Reading the object fails with an exception.
  abbrev pub Absent : io.State → ℕ → Bytes → Type 0
  Absent s i id = (q d : Data) → q.id ≡ id → (e : ErrorCode) × (io.read i s q d ≡ err (thrown e))

  -- Reading the whole object, by size 0 or by its size, to the start of the destination returns `b`.
  abbrev pub Holds : io.State → ℕ → Bytes → Bytes → Type 0
  Holds s i id b =
      (q d : Data)
      → q.id ≡ id
      → q.position ≡ 0
      → (q.data_size ≡ 0) ⊎ (q.data_size ≡ length b)
      → d.position ≡ 0
      → io.read i s q d ≡ ok (record d { buffer = some b; data_size = length b })

  -- What the orchestrator and the server need of the storage clients: an object that is not there is
  -- written whole, and a write leaves every other object, and the same name on other storages, as
  -- it was.
  pub record IsIo : Type 0 where
    pub after : io.State → ℕ → Bytes → Bytes → io.State
    pub writes :
        (s : io.State) (i : ℕ) (source destination : Data) (b : Bytes)
        → source.buffer ≡ some b
        → source.position ≡ 0
        → source.data_size ≡ length b
        → destination.position ≡ 0
        → Absent s i destination.id
        → io.write i s source destination ≡ ok (after s i destination.id b)
    pub holds :
        (s : io.State) (i : ℕ) (id b : Bytes) → Absent s i id → Holds (after s i id b) i id b
    pub others :
        (s : io.State) (i j : ℕ) (id b : Bytes) (q d : Data)
        → (j ≢ i) ⊎ (q.id ≢ id)
        → io.read j (after s i id b) q d ≡ io.read j s q d

-- Packing and unpacking metadata whose entries have no buffers gives it back.
abbrev pub NoBuffers : List (ℤ × Data) → Type 0
NoBuffers [] = Unit
NoBuffers ((k, d) ∷ links) = (d.buffer ≡ none) × NoBuffers links

pub record IsMsgPack (codec : MsgPack) : Type 0 where
  pub unpack-pack : (m : Metadata) → NoBuffers m.links → codec.unpack (codec.pack m) ≡ ok m

abbrev pub Among : ℕ → List ℕ → Type 0
Among j [] = ⊥
Among j (i ∷ rest) = (j ≡ i) ⊎ Among j rest

abbrev pub Distinct : List ℕ → Type 0
Distinct [] = Unit
Distinct (i ∷ rest) = (¬ Among i rest) × Distinct rest
