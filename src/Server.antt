-- ===== src/Server.antt =====
-- src/symbios/server/server.cpp: the requests that a server answers.
pub mod OneSegment
pub mod StoreLocate
pub mod Bound
use symbios.Base.{
  ℕ, ◌+◌, ◌-◌, Bool, true, false, none, some, List, [], ◌∷◌, ◌++◌, if◌then◌else◌, ltb,
}
use symbios.Base.Result.{Result, ok, err, thrown, null_pointer, out_of_bounds, ◌>>=◌}
use symbios.Base.Text.{Bytes}
use symbios.Base.Memory.{load}
use symbios.Objects.{Data, DataDistribution, Metadata, Io, MsgPack}
use symbios.Distribution.{Policy, Solutions, distribute}
use symbios.Orchestrator

-- `memcpy` from the buffer of one answer, from its position on.
unfoldable pub part_of : Data → Result Bytes
part_of d = elim d.buffer [
  | none ↦ err null_pointer
  | some b ↦
      if ltb d.data_size d.position
      then err out_of_bounds
      else load b d.position (d.data_size - d.position)
]

unfoldable pub concat_parts : List Data → Result Bytes
unfolding part_of
concat_parts [] = ok []
concat_parts (d ∷ ds) = part_of d >>= λ b. concat_parts ds >>= λ rest. ok (b ++ rest)

module _ (io : Io) (codec : MsgPack) (max : ℕ) (indices : List ℕ) where
  open io use {State, read, write, remove, size}

  -- The loop of `Store` that writes the data.
  unfoldable pub write_all : List DataDistribution → State → Result State
  write_all [] s = ok s
  write_all (d ∷ ds) s =
      write d.destination_data.storage_index s d.source_data d.destination_data >>= write_all ds

  -- The reply is SERVER_COUNT.
  unfoldable pub store : Policy → ℕ → ℕ → Solutions → ℕ → State → Data → Data → Result (ℕ × State)
  store policy random next solutions server_count s source destination =
      distribute policy random next solutions source destination >>= λ ds.
      Orchestrator.store io codec max indices s destination ds >>= λ r.
      write_all r.1 r.0 >>= λ s'. ok (server_count, s')

  unfoldable pub read_all : List DataDistribution → State → Result (List Data)
  read_all [] s = ok []
  read_all (d ∷ ds) s =
      read d.destination_data.storage_index s d.source_data d.destination_data >>= λ answer.
      read_all ds s >>= λ rest. ok (answer ∷ rest)

  unfoldable pub locate : State → Data → Data → Result Data
  locate s source destination = Orchestrator.locate io codec max indices s source >>= λ r.
      read_all r.0 s >>= λ answers.
      concat_parts answers >>= λ b. ok (record destination { buffer = some b })

  unfoldable pub sum_sizes : List DataDistribution → State → Result ℕ
  sum_sizes [] s = ok 0
  sum_sizes (d ∷ ds) s = size d.destination_data.storage_index s d.destination_data >>= λ n.
      sum_sizes ds s >>= λ rest. ok (n + rest)

  -- An exception of `Locate` is an object of size 0.
  unfoldable pub size_by : Result (List DataDistribution × Metadata) → State → Result ℕ
  size_by (ok (ds, _)) s = sum_sizes ds s
  size_by (err (thrown _)) s = ok 0
  size_by (err e) s = err e

  unfoldable pub object_size : State → Data → Result ℕ
  object_size s request = size_by (Orchestrator.locate io codec max indices s request) s

  -- After one removal that fails the others are not tried.
  unfoldable pub remove_all : List DataDistribution → State → Result (Bool × State)
  remove_all [] s = ok (true, s)
  remove_all (d ∷ ds) s = remove d.destination_data.storage_index s d.source_data >>= λ r.
      if r.0 then remove_all ds r.1 else ok (false, r.1)

  unfoldable pub delete_by :
      Result (List DataDistribution × Metadata) → State → Data → Result (Bool × State)
  delete_by (ok (ds, _)) s request = remove_all ds s >>= λ r.
      if r.0 then Orchestrator.delete io codec max indices indices r.1 request else ok (false, r.1)
  delete_by (err (thrown _)) s request = ok (false, s)
  delete_by (err e) s request = err e

  unfoldable pub delete : State → Data → Result (Bool × State)
  delete s request = delete_by (Orchestrator.locate io codec max indices s request) s request
