-- ===== src/Engine/Hosts/Lines.antt =====
-- The list of nodes from a file of hosts: one node for each line, and the last line of a file that
-- does not end in a newline.
use symbios.Base.{
  ℕ, suc, ◌+◌, ◌-◌, ◌≤◌, ◌<◌, ◌≡◌, ◌≢◌, ◌∙◌, refl, sym, ap, Option, some, List, [], ◌∷◌, ◌++◌,
  arith, length, length-append, append_assoc, append-nil,
}
use symbios.Base.Result.{ok, ◌>>=◌}
use symbios.Base.Text.{Bytes, print_ℕ}
use symbios.Engine.Hosts.{
  redis_port_base, cut_last, node_entry, append_nodes, gen_node_list_from_hostfile,
  connect_to_redis_server_with_hostfile,
}
use symbios.Engine.Hosts.Rounds.{
  host_lines, node_entries, IsHost, AreHosts, cut_last-append, append_nodes-line, append_nodes-end,
  append_nodes-host_lines,
}

-- The list that the program means: a comma between two nodes.
abbrev pub node_list : ℕ → List Bytes → Bytes
node_list i [] = []
node_list i (h ∷ []) = h ++ b':' ∷ print_ℕ (redis_port_base + i)
node_list i (h ∷ g ∷ hs) =
    (h ++ b':' ∷ print_ℕ (redis_port_base + i)) ++ b',' ∷ node_list (i + 1) (g ∷ hs)

node_entry_comma :
    (h : Bytes) (i : ℕ) → node_entry h i ≡ (h ++ b':' ∷ print_ℕ (redis_port_base + i)) ++ b',' ∷ []
unfolding node_entry
node_entry_comma h i = sym (append_assoc h (b':' ∷ print_ℕ (redis_port_base + i)) (b',' ∷ []))

node_entries-node_list :
    (i : ℕ) (h : Bytes) (hs : List Bytes)
    → node_entries i (h ∷ hs) ≡ node_list i (h ∷ hs) ++ b',' ∷ []
node_entries-node_list i h [] = append-nil (node_entry h i) ∙ node_entry_comma h i
node_entries-node_list i h (g ∷ hs) =
    ap (λ e. e ++ node_entries (i + 1) (g ∷ hs)) (node_entry_comma h i)
    ∙ append_assoc (h ++ b':' ∷ print_ℕ (redis_port_base + i)) (b',' ∷ [])
        (node_entries (i + 1) (g ∷ hs))
    ∙ ap (λ e. (h ++ b':' ∷ print_ℕ (redis_port_base + i)) ++ b',' ∷ e)
        (node_entries-node_list (i + 1) g hs)
    ∙ sym (
        append_assoc (h ++ b':' ∷ print_ℕ (redis_port_base + i)) (b',' ∷ node_list (i + 1) (g ∷ hs))
          (b',' ∷ []))

cut_last-entries :
    (h : Bytes) (hs : List Bytes) → cut_last (node_entries 0 (h ∷ hs)) ≡ ok (node_list 0 (h ∷ hs))
cut_last-entries h hs =
    ap cut_last (node_entries-node_list 0 h hs) ∙ cut_last-append (node_list 0 (h ∷ hs)) b','

length-host_lines : (hs : List Bytes) → length hs ≤ length (host_lines hs)
length-host_lines [] = omega arith
length-host_lines (h ∷ hs) =
    omega (arith, length-host_lines hs, length-append h (b'\n' ∷ host_lines hs))

append_nodes_done : (left i : ℕ) (nodelist : Bytes) → append_nodes left [] i nodelist ≡ ok nodelist
unfolding append_nodes
append_nodes_done left i nodelist = refl

-- The lines of a file, with as much fuel as it has bytes.
append_nodes-file :
    (hs : List Bytes) (rest : Bytes)
    → AreHosts 0 hs
    → length (node_entries 0 hs) < 2048
    → append_nodes (length (host_lines hs ++ rest)) (host_lines hs ++ rest) 0 []
      ≡ append_nodes
          (length (host_lines hs) - length hs + length rest)
          rest
          (length hs)
          (node_entries 0 hs)
append_nodes-file hs rest hosts room =
    ap (λ n. append_nodes n (host_lines hs ++ rest) 0 [])
      (omega (arith, length-host_lines hs, length-append (host_lines hs) rest))
    ∙ append_nodes-host_lines hs left 0 rest [] hosts (omega (arith, room))
    ∙ ap (λ k. append_nodes left rest k (node_entries 0 hs)) (omega arith)
  where
    left : ℕ
    left = length (host_lines hs) - length hs + length rest

gen_node_list-file :
    (fopen : Bytes → Option Bytes) (hostfile file : Bytes)
    → fopen hostfile ≡ some file
    → gen_node_list_from_hostfile fopen (some hostfile)
      ≡ (append_nodes (length file) file 0 [] >>= cut_last)
unfolding gen_node_list_from_hostfile
gen_node_list-file fopen hostfile file opens = rw (opens, gen_node_list_from_hostfile) refl

-- From a file that has a line for each of its hosts, at least one, a connection is made to the list of
-- all hosts in turn, each with the port of its number, with commas between them, if no host has a
-- newline or a NUL in it, each node leaves room for a comma and a NUL in 128 bytes, and all of them
-- with a comma each do for a NUL in 2048.
pub connect-host_lines {ℓ} :
    {A : Type ℓ} (connect : Bytes → Option A) (fopen : Bytes → Option Bytes) (hostfile h : Bytes)
    (hs : List Bytes)
    → fopen hostfile ≡ some (host_lines (h ∷ hs))
    → AreHosts 0 (h ∷ hs)
    → length (node_entries 0 (h ∷ hs)) < 2048
    → connect_to_redis_server_with_hostfile connect fopen (some hostfile)
      ≡ ok (connect (node_list 0 (h ∷ hs)))
unfolding connect_to_redis_server_with_hostfile
connect-host_lines connect fopen hostfile h hs opens hosts room =
    ap (λ q. q >>= λ nodelist. ok (connect nodelist))
      (gen_node_list-file fopen hostfile (host_lines (h ∷ hs)) opens
        ∙ ap (λ q. q >>= cut_last)
            (ap (λ f. append_nodes (length f) f 0 []) (sym (append-nil (host_lines (h ∷ hs))))
              ∙ append_nodes-file (h ∷ hs) [] hosts room
              ∙ append_nodes_done (length (host_lines (h ∷ hs)) - length (h ∷ hs) + 0)
                  (length (h ∷ hs)) (node_entries 0 (h ∷ hs)))
        ∙ cut_last-entries h hs)

-- The last host of a file that does not end in a newline loses its last byte: the list is that of the
-- file in which a newline stands for that byte, if no host has a newline or a NUL in it and the nodes
-- of that file leave room for a comma and a NUL each in 128 bytes, and all of them, with their commas,
-- for a NUL in 2048.
pub gen_node_list_lost_byte :
    (fopen : Bytes → Option Bytes) (hostfile whole_file : Bytes) (hs : List Bytes) (h : Bytes)
    (c : ℕ)
    → fopen hostfile ≡ some (host_lines hs ++ (h ++ c ∷ []))
    → fopen whole_file ≡ some (host_lines hs ++ (h ++ b'\n' ∷ []))
    → AreHosts 0 hs
    → IsHost (length hs) h
    → c ≢ b'\n'
    → c ≢ 0
    → length (node_entries 0 hs) + length (node_entry h (length hs)) < 2048
    → gen_node_list_from_hostfile fopen (some hostfile)
      ≡ gen_node_list_from_hostfile fopen (some whole_file)
gen_node_list_lost_byte fopen hostfile whole_file hs h c opens opens' hosts host no_newline no_nul
      room =
    gen_node_list-file fopen hostfile (host_lines hs ++ (h ++ c ∷ [])) opens
    ∙ ap (λ q. q >>= cut_last)
        (append_nodes-file hs (h ++ c ∷ []) hosts (omega (arith, room))
          ∙ ap (λ n. append_nodes n (h ++ c ∷ []) (length hs) (node_entries 0 hs)) (left_suc c)
          ∙ append_nodes-end left (length hs) h (node_entries 0 hs) c host no_newline no_nul room
          ∙ sym (append_nodes-line left (length hs) h [] (node_entries 0 hs) host room)
          ∙ ap (λ n. append_nodes n (h ++ b'\n' ∷ []) (length hs) (node_entries 0 hs))
              (sym (left_suc b'\n'))
          ∙ sym (append_nodes-file hs (h ++ b'\n' ∷ []) hosts (omega (arith, room))))
    ∙ sym (gen_node_list-file fopen whole_file (host_lines hs ++ (h ++ b'\n' ∷ [])) opens')
  where
    left : ℕ
    left = length (host_lines hs) - length hs + length h

    left_suc : (d : ℕ) → length (host_lines hs) - length hs + length (h ++ d ∷ []) ≡ suc left
    left_suc d = omega (arith, length-append h (d ∷ []))
