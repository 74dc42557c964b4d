-- ===== src/Engine/Trace.antt =====
-- The trace records of test_engine.c, one in each line of a text file. The rank that reads the file
-- broadcasts each line, so that all ranks see the same records.
use symbios.Base.{
  ℕ, zero, suc, Bool, true, false, ◌&&◌, ◌||◌, Option, none, some, [], ◌∷◌, ◌==◌, if◌then◌else◌,
}
use symbios.Base.Int.{ℤ, size_of_int}
use symbios.Base.Result.{Result, ok, err, null_pointer, ◌>>=◌}
use symbios.Base.Text.{Bytes, codes, strtok}
use symbios.Base.Memory.{c_string}
use symbios.ShadowLink.Serde.{atoi_token}

pub data IoOps : Type 0 where
  open_op read_op write_op seek_op close_op : IoOps

pub record TraceRecord : Type 0 where
  pub ops : IoOps
  pub size : ℕ
  pub offset : ℤ

-- `get_record_count`. A byte of 255 is stored in a `char`, which is signed, and is then equal to EOF.
unfoldable pub get_record_count : Bytes → ℕ
get_record_count [] = 0
get_record_count (c ∷ file) =
    let rest = get_record_count file in
    if c == 255 then 0 else if c == b'\n' then suc rest else rest

-- `fgets` with room for `n` bytes and a NUL: the line with its newline, and the rest of the file.
unfoldable pub read_line : ℕ → Bytes → Bytes × Bytes
read_line zero file = ([], file)
read_line (suc n) [] = ([], [])
read_line (suc n) (c ∷ file) =
    let rest = read_line n file in if c == b'\n' then (c ∷ [], file) else (c ∷ rest.0, rest.1)

unfoldable pub is_prefix : Bytes → Bytes → Bool
is_prefix [] s = true
is_prefix (a ∷ p) [] = false
is_prefix (a ∷ p) (b ∷ s) = (a == b) && is_prefix p s

-- `strstr(s, p) != NULL`
unfoldable pub contains : Bytes → Bytes → Bool
unfolding is_prefix
contains p [] = is_prefix p []
contains p (b ∷ s) = is_prefix p (b ∷ s) || contains p s

-- A token with no operation in it leaves the operation of the record before.
unfoldable pub ops_of : Bytes → IoOps → IoOps
unfolding contains
ops_of token before =
    if contains (codes "OPEN") token || contains (codes "open") token
    then open_op
    else if contains (codes "READ") token || contains (codes "read") token
    then read_op
    else if contains (codes "WRITE") token || contains (codes "write") token
    then write_op
    else if contains (codes "SEEK") token || contains (codes "seek") token
    then seek_op
    else if contains (codes "CLOSE") token || contains (codes "close") token
    then close_op
    else before

unfoldable pub ops_token : Option Bytes → IoOps → Result IoOps
unfolding ops_of
ops_token none before = err null_pointer
ops_token (some token) before = ok (ops_of token before)

-- The record of one line.
unfoldable pub parse_record : Bytes → TraceRecord → Result TraceRecord
unfolding ops_token
parse_record line before =
    let t₁ = strtok b',' (c_string line) in
    let t₂ = strtok b',' t₁.1 in
    let t₃ = strtok b',' t₂.1 in
    ops_token t₁.0 before.ops >>= λ ops. atoi_token t₂.0 >>= λ offset.
    atoi_token t₃.0 >>= λ size. ok (record { ops = ops; size = size_of_int size; offset = offset })

-- NULL at the end of the file; otherwise the record, and the rest of the file.
unfoldable pub next_trace_record : Bytes → TraceRecord → Result (Option TraceRecord × Bytes)
unfolding parse_record
next_trace_record [] before = ok (none, [])
next_trace_record (c ∷ file) before =
    let next = read_line 1023 (c ∷ file) in parse_record next.0 before >>= λ r. ok (some r, next.1)
