-- ===== src/Engine/Hosts.antt =====
-- old/internal_component/engine/io_redis.c: the list of the nodes of a Redis cluster, with the port
-- of each, from a file with one host in each line, and the connection to them.
pub mod Rounds
pub mod Lines
use symbios.Base.{ℕ, zero, suc, ◌+◌, Option, none, some, List, [], ◌∷◌, ◌++◌, length}
use symbios.Base.Result.{Result, ok, err, aborted, out_of_bounds, out_of_fuel, ◌>>=◌}
use symbios.Base.Text.{Bytes, print_ℕ, strcat}
use symbios.Base.Memory.{c_string}
use symbios.Engine.Trace.{read_line}

-- REDIS_PORT_BASE
abbrev pub redis_port_base : ℕ
redis_port_base = 7000

-- `s[strlen(s) - 1] = 0`, which must stay inside the block.
unfoldable pub cut_last : Bytes → Result Bytes
cut_last [] = err out_of_bounds
cut_last (c ∷ []) = ok []
cut_last (c ∷ d ∷ s) = cut_last (d ∷ s) >>= λ r. ok (c ∷ r)

-- `"%s:%d,"` of the host and the port of its number.
unfoldable pub node_entry : Bytes → ℕ → Bytes
node_entry node i = node ++ (b':' ∷ print_ℕ (redis_port_base + i) ++ b',' ∷ [])

-- One round of the loop: the line as `fgets` has left it in `node`, the text in `tmp`, of 128 bytes,
-- and the list with it, of 2048.
unfoldable pub append_node : Bytes → ℕ → Bytes → Result Bytes
unfolding cut_last node_entry strcat
append_node line i nodelist =
    cut_last (c_string line) >>= λ node. strcat 128 [] (node_entry node i) >>= strcat 2048 nodelist

-- The loop, on fuel.
unfoldable pub append_nodes : ℕ → Bytes → ℕ → Bytes → Result Bytes
unfolding append_node read_line
append_nodes left [] i nodelist = ok nodelist
append_nodes zero (c ∷ file) i nodelist = err out_of_fuel
append_nodes (suc left) (c ∷ file) i nodelist =
    append_node (read_line 127 (c ∷ file)).0 i nodelist
    >>= append_nodes left (read_line 127 (c ∷ file)).1 (i + 1)

-- The file that `fopen` finds for a name, `none` for NULL; each round takes a byte of it at least.
unfoldable pub gen_node_list_from_hostfile : (Bytes → Option Bytes) → Option Bytes → Result Bytes
unfolding append_nodes cut_last
gen_node_list_from_hostfile fopen none = err (aborted 255)
gen_node_list_from_hostfile fopen (some hostfile) = elim (fopen hostfile) [
  | none ↦ err (aborted 255)
  | some file ↦ append_nodes (length file) file 0 [] >>= cut_last
]

-- `none` for NULL: the cluster does not take the nodes of the list.
unfoldable pub connect_to_redis_server_with_hostfile {ℓ} :
    {A : Type ℓ} → (Bytes → Option A) → (Bytes → Option Bytes) → Option Bytes → Result (Option A)
unfolding gen_node_list_from_hostfile
connect_to_redis_server_with_hostfile connect fopen hostfile =
    gen_node_list_from_hostfile fopen hostfile >>= λ nodelist. ok (connect nodelist)
