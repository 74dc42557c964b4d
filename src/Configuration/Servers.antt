-- ===== src/Configuration/Servers.antt =====
-- include/symbios/common/configuration_manager.h, `CountServers`: the servers that a list names.
use symbios.Base.{
  ℕ, ◌+◌, ◌≡◌, refl, ap, Bool, true, false, Option, none, some, List, [], ◌∷◌, ◌==◌, ==_iff,
  if◌then◌else◌, length, arith,
}
use symbios.Base.Int.{ℤ, pos, negsuc}
use symbios.Base.Result.{Result, ok, err, aborted}
use symbios.Base.Text.{Bytes, atoi}

-- `file_line.substr(split_loc)`, from the first colon on, if there is one.
unfoldable pub from_colon : Bytes → Option Bytes
from_colon [] = none
from_colon (c ∷ s) = let rest = from_colon s in if c == b':' then some (c ∷ s) else rest

-- The turns of `for (int i = 0; i < count; i++)`.
unfoldable pub turns : ℤ → ℕ
turns (pos n) = n
turns (negsuc n) = 0

unfoldable pub servers_of_line : Bytes → ℕ
unfolding from_colon turns
servers_of_line [] = 0
servers_of_line (c ∷ s) = elim (from_colon (c ∷ s)) [ none ↦ 1 | some rest ↦ turns (atoi rest) ]

unfoldable pub servers_of_lines : List Bytes → ℕ
unfolding servers_of_line
servers_of_lines [] = 0
servers_of_lines (line ∷ lines) = servers_of_line line + servers_of_lines lines

-- The lines that `getline` yields, if the file can be opened; otherwise the program exits.
unfoldable pub count_servers : Option (List Bytes) → Result ℕ
unfolding servers_of_lines
count_servers none = err (aborted 1)
count_servers (some lines) = ok (servers_of_lines lines)

-- The lines that are not empty and have no colon.
unfoldable pub plain_lines : List Bytes → List Bytes
unfolding from_colon
plain_lines [] = []
plain_lines ([] ∷ lines) = plain_lines lines
plain_lines ((c ∷ s) ∷ lines) =
    let rest = plain_lines lines in
    elim (from_colon (c ∷ s)) [ none ↦ (c ∷ s) ∷ rest | some t ↦ rest ]

from_colon_head : (s t : Bytes) → from_colon s ≡ some t → (rest : Bytes) × (t ≡ b':' ∷ rest)
unfolding from_colon
from_colon_head [] t found = cc
from_colon_head (c ∷ s) t found = by (c == b':') refl found (from_colon_head s t)
  where
    by :
        (b : Bool)
        → (c == b':') ≡ b
        → (if b then some (c ∷ s) else from_colon s) ≡ some t
        → (from_colon s ≡ some t → (rest : Bytes) × (t ≡ b':' ∷ rest))
        → (rest : Bytes) × (t ≡ b':' ∷ rest)
    by true e found later = (s, cc (found, (==_iff c b':').0 e))
    by false e found later = later found

-- A list that can be opened has as many servers as it has lines that are not empty and have no
-- colon: a line of a node and a number counts for none, whatever the number is.
pub count_servers-plain_lines :
    (lines : List Bytes) → count_servers (some lines) ≡ ok (length (plain_lines lines))
unfolding count_servers servers_of_lines plain_lines servers_of_line turns atoi
count_servers-plain_lines lines = ap ok (counted lines)
  where
    alone :
        (o : Option Bytes) (c : ℕ) (s : Bytes) (ls : List Bytes) (n : ℕ)
        → from_colon (c ∷ s) ≡ o
        → n ≡ length ls
        → (elim o as (λ o. ℕ) [ none ↦ 1 | some rest ↦ turns (atoi rest) ]) + n
          ≡ length {A = Bytes} (elim o as (λ o. List Bytes) [ none ↦ (c ∷ s) ∷ ls | some t ↦ ls ])
    alone none c s ls n found same = omega (arith, same)
    alone (some t) c s ls n found same =
        let (rest, head) = from_colon_head (c ∷ s) t found in rw (head) (omega (arith, same))

    counted : (lines : List Bytes) → servers_of_lines lines ≡ length (plain_lines lines)
    counted [] = refl
    counted ([] ∷ lines) = omega (arith, counted lines)
    counted ((c ∷ s) ∷ lines) =
        alone (from_colon (c ∷ s)) c s (plain_lines lines) (servers_of_lines lines) refl
          (counted lines)
