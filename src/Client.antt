-- ===== src/Client.antt =====
-- src/symbios/client/client.cpp: the requests of a client to the servers. The servers, reached by
-- RPC (rpclib, basket), are the parameter `Rpc`.
use symbios.Base.{ℕ, ◌%◌, Bool, none, some, ◌==◌, if◌then◌else◌}
use symbios.Base.Int.{ℤ}
use symbios.Base.Result.{Result, ok, err, null_pointer, division_by_zero, ◌>>=◌}
use symbios.Base.Memory.{load, store}
use symbios.Objects.{Data}

-- The replies of the servers, by the rank of the server that is asked. `rand` is that of stdlib.h.
pub record Rpc : Type 1 where
  pub State : Type 0
  pub rand : State → ℕ × State
  pub store : ℕ → State → Data → Data → Result (ℤ × State)
  pub locate : ℕ → State → Data → Data → Result Data
  pub delete : ℕ → State → Data → Result (Bool × State)
  pub size : ℕ → State → Data → Result ℕ

-- `memcpy` of the reply to the start of the destination's buffer, which is allocated if it is NULL.
unfoldable pub copy_reply : Data → Data → Result Data
copy_reply reply destination = elim reply.buffer [
  | none ↦ err null_pointer
  | some b ↦ load b 0 reply.data_size >>= λ bytes. elim destination.buffer [
    | none ↦ ok (record destination { buffer = some bytes })
    | some block ↦ store block 0 bytes >>= λ full. ok (record destination { buffer = some full })
  ]
]

module _ (rpc : Rpc) (num_servers : ℕ) where
  open rpc use {State, rand}

  -- `rand() % NUM_SERVERS`
  unfoldable pub pick_server : State → Result (ℕ × State)
  pick_server s =
      if num_servers == 0 then err division_by_zero else ok ((rand s).0 % num_servers, (rand s).1)

  unfoldable pub store_request : State → Data → Data → Result State
  unfolding pick_server
  store_request s source destination =
      pick_server s >>= λ p. rpc.store p.0 p.1 source destination >>= λ r. ok r.1

  -- The destination, of which only the buffer is set.
  unfoldable pub locate_request : State → Data → Data → Result (Data × State)
  unfolding pick_server copy_reply
  locate_request s source destination = pick_server s >>= λ p.
      rpc.locate p.0 p.1 source destination >>= λ reply.
      copy_reply reply destination >>= λ d. ok (d, p.1)

  unfoldable pub delete_request : State → Data → Result (Bool × State)
  unfolding pick_server
  delete_request s request = pick_server s >>= λ p. rpc.delete p.0 p.1 request

  unfoldable pub size_request : State → Data → Result (ℕ × State)
  unfolding pick_server
  size_request s request = pick_server s >>= λ p. rpc.size p.0 p.1 request >>= λ n. ok (n, p.1)
