-- ===== src/Engine/Hosts/Rounds.antt =====
-- The rounds of the loop over a file of hosts, one for each line.
use symbios.Base.{
  ℕ, zero, suc, ◌+◌, ◌≤◌, ◌<◌, ◌≡◌, ◌≢◌, ◌∙◌, refl, sym, ap, List, [], ◌∷◌, ◌++◌, arith, length,
  length-append, append_assoc, append-nil,
}
use symbios.Base.Result.{Result, ok, ◌>>=◌}
use symbios.Base.Text.{Bytes, print_ℕ, strcat, Lacks, Lacks-append}
use symbios.Base.Memory.{c_string-Lacks}
use symbios.Engine.Trace.{read_line}
use symbios.Engine.Hosts.{redis_port_base, cut_last, node_entry, append_node, append_nodes}

-- The file with a line for each host.
abbrev pub host_lines : List Bytes → Bytes
host_lines [] = []
host_lines (h ∷ hs) = h ++ b'\n' ∷ host_lines hs

-- The nodes, with a comma behind each.
abbrev pub node_entries : ℕ → List Bytes → Bytes
node_entries i [] = []
node_entries i (h ∷ hs) = node_entry h i ++ node_entries (i + 1) hs

-- A host in a line of its own, which goes into the blocks of one round.
abbrev pub IsHost : ℕ → Bytes → Type 0
IsHost i h = Lacks b'\n' h × Lacks 0 h × (length (node_entry h i) < 128)

abbrev pub AreHosts : ℕ → List Bytes → Type 0
AreHosts i [] = Unit
AreHosts i (h ∷ hs) = IsHost i h × AreHosts (i + 1) hs

pub cut_last-append : (s : Bytes) (c : ℕ) → cut_last (s ++ (c ∷ [])) ≡ ok s
unfolding cut_last
cut_last-append [] c = refl
cut_last-append (a ∷ []) c = refl
cut_last-append (a ∷ b ∷ s) c = ap (λ q. q >>= λ r. ok (a ∷ r)) (cut_last-append (b ∷ s) c)

read_line-line :
    (n : ℕ) (h rest : Bytes)
    → Lacks b'\n' h
    → length h < n
    → read_line n (h ++ b'\n' ∷ rest) ≡ (h ++ b'\n' ∷ [], rest)
unfolding read_line
read_line-line zero h rest lacks short = absurd (omega arith)
read_line-line (suc n) [] rest lacks short = refl
read_line-line (suc n) (c ∷ h) rest lacks short =
    ground (arith, lacks.0, read_line-line n h rest lacks.1 (omega arith))

-- What is left of a file behind its last newline.
read_line-end : (n : ℕ) (h : Bytes) → Lacks b'\n' h → length h ≤ n → read_line n h ≡ (h, [])
unfolding read_line
read_line-end zero [] lacks short = refl
read_line-end zero (c ∷ h) lacks short = absurd (omega arith)
read_line-end (suc n) [] lacks short = refl
read_line-end (suc n) (c ∷ h) lacks short =
    ground (arith, lacks.0, read_line-end n h lacks.1 (omega arith))

length-node_entry : (h : Bytes) (i : ℕ) → length h + 2 ≤ length (node_entry h i)
unfolding node_entry
length-node_entry h i = omega (
  arith,
  length-append h (b':' ∷ print_ℕ (redis_port_base + i) ++ b',' ∷ []),
  length-append (print_ℕ (redis_port_base + i)) (b',' ∷ []),
)

strcat_fits : (cap : ℕ) (s t : Bytes) → length s + length t < cap → strcat cap s t ≡ ok (s ++ t)
unfolding strcat
strcat_fits cap s t room = ground arith

-- One round, for a host and the byte behind it.
append_node-host :
    (h : Bytes) (c i : ℕ) (nodelist : Bytes)
    → IsHost i h
    → c ≢ 0
    → length nodelist + length (node_entry h i) < 2048
    → append_node (h ++ c ∷ []) i nodelist ≡ ok (nodelist ++ node_entry h i)
unfolding append_node
append_node-host h c i nodelist (no_newline, no_nul, short) some_byte room =
    ap (λ s. cut_last s >>= written)
      (c_string-Lacks (h ++ c ∷ []) (Lacks-append 0 h (c ∷ []) no_nul (some_byte, tt)))
    ∙ ap (λ q. q >>= written) (cut_last-append h c)
    ∙ ap (λ q. q >>= strcat 2048 nodelist)
        (strcat_fits 128 [] (node_entry h i) (omega (arith, short)))
    ∙ strcat_fits 2048 nodelist (node_entry h i) room
  where
    written : Bytes → Result Bytes
    written node = strcat 128 [] (node_entry node i) >>= strcat 2048 nodelist

append_nodes_round :
    (left i : ℕ) (file nodelist line rest : Bytes)
    → 0 < length file
    → read_line 127 file ≡ (line, rest)
    → append_nodes (suc left) file i nodelist
      ≡ (append_node line i nodelist >>= append_nodes left rest (i + 1))
unfolding append_nodes
append_nodes_round left i [] nodelist line rest some_byte reads = absurd (omega arith)
append_nodes_round left i (c ∷ file) nodelist line rest some_byte reads =
    ap (λ p. append_node p.0 i nodelist >>= append_nodes left p.1 (i + 1)) reads

-- The round of a line, with its newline or, at the end of the file, without one.
pub append_nodes-line :
    (left i : ℕ) (h rest nodelist : Bytes)
    → IsHost i h
    → length nodelist + length (node_entry h i) < 2048
    → append_nodes (suc left) (h ++ b'\n' ∷ rest) i nodelist
      ≡ append_nodes left rest (i + 1) (nodelist ++ node_entry h i)
append_nodes-line left i h rest nodelist host room =
    append_nodes_round left i (h ++ b'\n' ∷ rest) nodelist (h ++ b'\n' ∷ []) rest
      (omega (arith, length-append h (b'\n' ∷ rest)))
      (read_line-line 127 h rest host.0 (omega (arith, host.2, length-node_entry h i)))
    ∙ ap (λ q. q >>= append_nodes left rest (i + 1))
        (append_node-host h b'\n' i nodelist host (omega arith) room)

pub append_nodes-end :
    (left i : ℕ) (h nodelist : Bytes) (c : ℕ)
    → IsHost i h
    → c ≢ b'\n'
    → c ≢ 0
    → length nodelist + length (node_entry h i) < 2048
    → append_nodes (suc left) (h ++ c ∷ []) i nodelist
      ≡ append_nodes left [] (i + 1) (nodelist ++ node_entry h i)
append_nodes-end left i h nodelist c host no_newline no_nul room =
    append_nodes_round left i (h ++ c ∷ []) nodelist (h ++ c ∷ []) []
      (omega (arith, length-append h (c ∷ [])))
      (read_line-end 127 (h ++ c ∷ []) (Lacks-append b'\n' h (c ∷ []) host.0 (no_newline, tt))
        (omega (arith, host.2, length-node_entry h i, length-append h (c ∷ []))))
    ∙ ap (λ q. q >>= append_nodes left [] (i + 1))
        (append_node-host h c i nodelist host no_nul room)

pub append_nodes-host_lines :
    (hs : List Bytes) (left i : ℕ) (rest nodelist : Bytes)
    → AreHosts i hs
    → length nodelist + length (node_entries i hs) < 2048
    → append_nodes (length hs + left) (host_lines hs ++ rest) i nodelist
      ≡ append_nodes left rest (i + length hs) (nodelist ++ node_entries i hs)
append_nodes-host_lines [] left i rest nodelist hosts room =
    ap (λ n. append_nodes n rest i nodelist) (omega arith)
    ∙ ap (λ k. append_nodes left rest k nodelist) (omega arith)
    ∙ ap (append_nodes left rest (i + 0)) (sym (append-nil nodelist))
append_nodes-host_lines (h ∷ hs) left i rest nodelist (host, hosts) room =
    ap (λ n. append_nodes n (host_lines (h ∷ hs) ++ rest) i nodelist) (omega arith)
    ∙ ap (λ f. append_nodes (suc (length hs + left)) f i nodelist)
        (append_assoc h (b'\n' ∷ host_lines hs) rest)
    ∙ append_nodes-line (length hs + left) i h (host_lines hs ++ rest) nodelist host
        (omega (arith, length-append (node_entry h i) (node_entries (i + 1) hs)))
    ∙ append_nodes-host_lines hs left (i + 1) rest (nodelist ++ node_entry h i) hosts (
        omega (
          arith,
          length-append (node_entry h i) (node_entries (i + 1) hs),
          length-append nodelist (node_entry h i),
        ))
    ∙ ap (λ k. append_nodes left rest k (nodelist ++ node_entry h i ++ node_entries (i + 1) hs))
        (omega arith)
    ∙ ap (append_nodes left rest (i + suc (length hs)))
        (append_assoc nodelist (node_entry h i) (node_entries (i + 1) hs))
