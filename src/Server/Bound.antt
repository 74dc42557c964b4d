-- ===== src/Server/Bound.antt =====
-- src/symbios/server/server.cpp: the handlers as they are bound to the names that a client calls.
-- RPC converts arguments and replies by MessagePack.
pub mod EndToEnd
use symbios.Base.{ℕ, ◌+◌, Bool, List}
use symbios.Base.Int.{ℤ, pos}
use symbios.Base.Result.{Result, ok, ◌>>=◌}
use symbios.Objects.{Data, Io, MsgPack, no_data}
use symbios.Packing.{pack_data, convert_data}
use symbios.Distribution.{Policy, Solutions}
use symbios.Client.{Rpc}
use symbios.Server

-- The data that the other side gets.
unfoldable pub over_wire : Data → Result Data
over_wire d = pack_data d >>= λ o. convert_data o no_data

-- What the servers share: the storages, and how many random numbers were drawn.
pub record Cluster (io : Io) : Type 0 where
  pub drawn : ℕ
  pub stores : io.State

module _ (io : Io) (codec : MsgPack) (max : ℕ) (indices : List ℕ) (policy : Policy)
    (random next : ℕ → ℕ) (solutions : Solutions) (server_count : ℕ) where
  -- The servers of one system. `random` and `next` are what `rand` and the global sequence yield.
  abbrev pub server_rpc : Rpc
  server_rpc = record {
    State = Cluster io;
    rand = λ s. (random s.drawn, record s { drawn = s.drawn + 1 });
    store = λ server s source destination. over_wire source >>= λ source.
        over_wire destination >>= λ destination.
        Server.store io codec max indices policy (random s.drawn) (next s.drawn) solutions
          server_count s.stores source destination
        >>= λ r. ok (pos r.0, record s { stores = r.1 });
    locate = λ server s source destination. over_wire source >>= λ source.
        over_wire destination >>= λ destination.
        Server.locate io codec max indices s.stores source destination >>= over_wire;
    delete = λ server s request. over_wire request >>= λ request.
        Server.delete io codec max indices s.stores request >>= λ r.
        ok (r.0, record s { stores = r.1 });
    size = λ server s request.
        over_wire request >>= λ request. Server.object_size io codec max indices s.stores request;
  }
