-- ===== src/Storage.antt =====
-- src/symbios/io_clients/io.h: the interface of one storage client, and what the orchestrator and the
-- server rely on in it.
pub mod Family
use symbios.Base.{ℕ, ◌+◌, ◌≤◌, ◌≡◌, ◌≢◌, ◌⊎◌, Bool, some, length}
use symbios.Base.Result.{ErrorCode, Result, ok, err, thrown}
use symbios.Base.Text.{Bytes}
use symbios.Base.Memory.{slice}
use symbios.Objects.{Data}

-- `IOClient`, over the state of the storage behind it.
pub record Storage : Type 1 where
  pub State : Type 0
  pub read : State → Data → Data → Result Data
  pub write : State → Data → Data → Result State
  pub remove : State → Data → Result (Bool × State)
  pub size : State → Data → Result ℕ

module _ (st : Storage) where
  abbrev pub Missing : st.State → Bytes → Type 0
  Missing s id = (q d : Data) → q.id ≡ id → (e : ErrorCode) × (st.read s q d ≡ err (thrown e))

  abbrev pub Keeps : st.State → Bytes → Bytes → Type 0
  Keeps s id b =
      (q d : Data)
      → q.id ≡ id
      → q.position ≡ 0
      → (q.data_size ≡ 0) ⊎ (q.data_size ≡ length b)
      → d.position ≡ 0
      → st.read s q d ≡ ok (record d { buffer = some b; data_size = length b })

  -- An object that is not there is written whole and read whole, and other objects stay.
  pub record IsStorage : Type 0 where
    pub after : st.State → Bytes → Bytes → st.State
    pub writes :
        (s : st.State) (source destination : Data) (b : Bytes)
        → source.buffer ≡ some b
        → source.position ≡ 0
        → source.data_size ≡ length b
        → destination.position ≡ 0
        → Missing s destination.id
        → st.write s source destination ≡ ok (after s destination.id b)
    pub holds : (s : st.State) (id b : Bytes) → Missing s id → Keeps (after s id b) id b
    pub others :
        (s : st.State) (id b : Bytes) (q d : Data)
        → q.id ≢ id
        → st.read (after s id b) q d ≡ st.read s q d

  -- A range of a buffer is written, to an object that is not there, as that object.
  pub record IsRangeStorage : Type 0 where
    pub whole : IsStorage
    pub open whole use *
    pub ranges :
        (s : st.State) (source destination : Data) (b : Bytes)
        → source.buffer ≡ some b
        → source.position + source.data_size ≤ length b
        → destination.position ≡ 0
        → Missing s destination.id
        → st.write s source destination
          ≡ ok (whole.after s destination.id (slice source.position source.data_size b))
