-- ===== src/Replayer/Print.antt =====
-- Traces as they are written: a line for each call, which is read back as that call.
use symbios.Base.{
  ℕ, zero, suc, ◌+◌, ◌-◌, ◌*◌, ◌≤◌, ◌<◌, ◌≡◌, ◌≢◌, ◌∙◌, refl, ap, false, List, [], ◌∷◌, ◌++◌, some,
  ltb, arith, length, length-append, append_assoc, map, ==-false,
}
use symbios.Base.Int.{ℤ}
use symbios.Base.Result.{Result, ok, ◌>>=◌, >>=_ext}
use symbios.Base.Text.{
  Bytes, codes, print_ℤ, strtok, atoi, scan_digits, skip_seps, take_token, first_token, Lacks,
  Lacks-append,
}
use symbios.Base.Text.Decimal.{atoi-print_ℤ, print_ℤ-Lacks}
use symbios.Base.Text.Tokens.{strtok-field}
use symbios.Base.Memory.{c_string, c_string-Lacks}
use symbios.ShadowLink.Serde.{atoi_token}
use symbios.ShadowLink.Serde.RoundTrip.{print_ℤ-ne-nil}
use symbios.Collection.{bytes_eq}
use symbios.Objects.{Io}
use symbios.Client.{Rpc}
use symbios.Iris.Handler.{LibHandler}
use symbios.RedisClient.Endpoint.{attach}
use symbios.Replayer.{
  CLibrary, Replay, Operation, fopen_line, fclose_line, write_line, read_line, lseek_line,
  other_line, Line, operation_of, operation_token, split_line, lines_of, replay_line, replay_lines,
  replay_trace,
}

abbrev pub word_of : Operation → Bytes
word_of fopen_line = codes "FOPEN"
word_of fclose_line = codes "FCLOSE"
word_of write_line = codes "WRITE"
word_of read_line = codes "READ"
word_of lseek_line = codes "LSEEK"
word_of other_line = codes "FLUSH"

-- A line without its newline, and with it.
abbrev text_of_line : Line → Bytes
text_of_line l =
    word_of l.operation ++ (b',' ∷ (print_ℤ l.offset ++ (b',' ∷ print_ℤ l.request_size)))

abbrev pub print_line : Line → Bytes
print_line l = text_of_line l ++ (b'\n' ∷ [])

operation_of-word_of : (o : Operation) → operation_of (word_of o) ≡ o
unfolding operation_of bytes_eq
operation_of-word_of fopen_line = refl
operation_of-word_of fclose_line = refl
operation_of-word_of write_line = refl
operation_of-word_of read_line = refl
operation_of-word_of lseek_line = refl
operation_of-word_of other_line = refl

-- The words have no comma, no newline and no NUL, and at least four letters.
word_of-plain :
    (o : Operation)
    → (word_of o ≢ [])
      × Lacks b',' (word_of o)
      × Lacks b'\n' (word_of o)
      × Lacks 0 (word_of o)
      × (4 ≤ length (word_of o))
word_of-plain fopen_line = (λ e. cc, omega arith, omega arith, omega arith, omega arith)
word_of-plain fclose_line = (λ e. cc, omega arith, omega arith, omega arith, omega arith)
word_of-plain write_line = (λ e. cc, omega arith, omega arith, omega arith, omega arith)
word_of-plain read_line = (λ e. cc, omega arith, omega arith, omega arith, omega arith)
word_of-plain lseek_line = (λ e. cc, omega arith, omega arith, omega arith, omega arith)
word_of-plain other_line = (λ e. cc, omega arith, omega arith, omega arith, omega arith)

-- A text without the separator is one token.
take_token_all : (sep : ℕ) (s : Bytes) → Lacks sep s → take_token sep s ≡ (s, [])
unfolding take_token
take_token_all sep [] h = refl
take_token_all sep (c ∷ s) h = ground (arith, h.0, take_token_all sep s h.1)

strtok_last : (sep : ℕ) (s : Bytes) → s ≢ [] → Lacks sep s → strtok sep s ≡ (some s, [])
unfolding strtok skip_seps first_token
strtok_last sep [] ne h = absurd (ne refl)
strtok_last sep (c ∷ s) ne h =
    ap (first_token sep) (skipped sep c s h.0)
    ∙ ap (λ (r : Bytes × Bytes). (some r.0, r.1)) (take_token_all sep (c ∷ s) h)
  where
    skipped : (sep c : ℕ) (s : Bytes) → c ≢ sep → skip_seps sep (c ∷ s) ≡ c ∷ s
    skipped sep c s k = ground arith

scan_digits_newline : (n : ℕ) (s : Bytes) → scan_digits n (s ++ (b'\n' ∷ [])) ≡ scan_digits n s
unfolding scan_digits
scan_digits_newline n [] = refl
scan_digits_newline n (c ∷ s) = ground (arith, scan_digits_newline (n * 10 + (c - b'0')) s)

-- A newline behind a number changes nothing.
atoi_newline : (s : Bytes) → atoi (s ++ (b'\n' ∷ [])) ≡ atoi s
unfolding atoi
atoi_newline [] = refl
atoi_newline (c ∷ s) =
    rw (atoi_newline s, scan_digits_newline 0 s, scan_digits_newline 0 (c ∷ s)) refl

append-ne-nil : (s t : Bytes) → s ≢ [] → s ++ t ≢ []
append-ne-nil [] t h e = h refl
append-ne-nil (c ∷ s) t h e = cc

last_number : ℤ → Bytes
last_number z = print_ℤ z ++ (b'\n' ∷ [])

text_of_line-Lacks :
    (sep : ℕ) (l : Line) → sep < b',' → Lacks sep (word_of l.operation) → Lacks sep (text_of_line l)
text_of_line-Lacks sep l small word = Lacks-append sep (word_of l.operation) _ word (
  omega (arith, small),
  Lacks-append sep (print_ℤ l.offset) _ (print_ℤ-Lacks sep l.offset (omega (arith, small)))
      (omega (arith, small), print_ℤ-Lacks sep l.request_size (omega (arith, small))),
)

print_line_fields :
    (l : Line)
    → print_line l
      ≡ word_of l.operation
        ++ (b',' ∷ (print_ℤ l.offset ++ (b',' ∷ (print_ℤ l.request_size ++ (b'\n' ∷ [])))))
print_line_fields l =
    append_assoc (word_of l.operation) _ (b'\n' ∷ [])
    ∙ ap (λ s. word_of l.operation ++ (b',' ∷ s)) (append_assoc (print_ℤ l.offset) _ (b'\n' ∷ []))

c_string-print_line : (l : Line) → c_string (print_line l) ≡ print_line l
c_string-print_line l = c_string-Lacks (print_line l) (
    Lacks-append 0 (text_of_line l) (b'\n' ∷ [])
      (text_of_line-Lacks 0 l (omega arith) (word_of-plain l.operation).3) (omega arith))

-- A line is read back as what was written.
split_line-print_line : (l : Line) → split_line (print_line l) ≡ ok l
unfolding split_line operation_token atoi_token
split_line-print_line l =
    rw
      (
        c_string-print_line l,
        print_line_fields l,
        strtok-field b',' (word_of l.operation)
            (print_ℤ l.offset ++ (b',' ∷ (print_ℤ l.request_size ++ (b'\n' ∷ []))))
            (word_of-plain l.operation).0 (word_of-plain l.operation).1,
        strtok-field b',' (print_ℤ l.offset) (print_ℤ l.request_size ++ (b'\n' ∷ []))
            (print_ℤ-ne-nil l.offset) (comma_free l.offset),
        strtok_last b',' (print_ℤ l.request_size ++ (b'\n' ∷ []))
            (append-ne-nil _ (b'\n' ∷ []) (print_ℤ-ne-nil l.request_size))
            (Lacks-append b',' (print_ℤ l.request_size) (b'\n' ∷ []) (comma_free l.request_size)
              (omega arith)),
        operation_of-word_of l.operation,
        atoi-print_ℤ l.offset,
        atoi_newline (print_ℤ l.request_size) ∙ atoi-print_ℤ l.request_size,
      )
      refl
  where
    comma_free : (z : ℤ) → Lacks b',' (print_ℤ z)
    comma_free z = print_ℤ-Lacks b',' z (omega arith)

lines_of-line :
    (s rest : Bytes)
    → Lacks b'\n' s
    → lines_of (s ++ (b'\n' ∷ rest)) ≡ (s ++ (b'\n' ∷ [])) ∷ lines_of rest
unfolding lines_of attach
lines_of-line [] rest h = refl
lines_of-line (c ∷ s) rest h = rw (==-false c b'\n' h.0, lines_of-line s rest h.1) refl

-- The file of a trace.
abbrev pub print_trace : List Line → Bytes
print_trace [] = []
print_trace (l ∷ ls) = print_line l ++ print_trace ls

lines_of-print_trace : (ls : List Line) → lines_of (print_trace ls) ≡ map print_line ls
unfolding lines_of
lines_of-print_trace [] = refl
lines_of-print_trace (l ∷ ls) =
    ap lines_of (append_assoc (text_of_line l) (b'\n' ∷ []) (print_trace ls))
    ∙ lines_of-line (text_of_line l) (print_trace ls)
        (text_of_line-Lacks b'\n' l (omega arith) (word_of-plain l.operation).2)
    ∙ ap (λ (r : List Bytes). print_line l ∷ r) (lines_of-print_trace ls)

print_line_long : (l : Line) → ltb (length (print_line l)) 4 ≡ false
print_line_long l = ground (
  arith,
  length-append (text_of_line l) (b'\n' ∷ []),
  length-append (word_of l.operation)
      (b',' ∷ (print_ℤ l.offset ++ (b',' ∷ print_ℤ l.request_size))),
  (word_of-plain l.operation).4,
)

module _ {ℓ} {Client : Type ℓ} (io : Io) (get_io_client : ℕ → Result Client) (rpc : Rpc)
    (num_servers : ℕ) (c : CLibrary) (h : LibHandler) (filename : Bytes) (rank : ℤ) where
  -- The calls in turn.
  pub replay_calls :
      List Line
      → Replay io get_io_client rpc num_servers c
      → Result (Replay io get_io_client rpc num_servers c)
  replay_calls [] r = ok r
  replay_calls (l ∷ ls) r =
      replay_line io get_io_client rpc num_servers c h filename rank l r >>= replay_calls ls

  -- So many times.
  pub replay_times :
      ℕ
      → List Line
      → Replay io get_io_client rpc num_servers c
      → Result (Replay io get_io_client rpc num_servers c)
  replay_times zero ls r = ok r
  replay_times (suc n) ls r = replay_calls ls r >>= replay_times n ls

  replay_lines-print_line :
      (ls : List Line) (r : Replay io get_io_client rpc num_servers c)
      → replay_lines io get_io_client rpc num_servers c h filename rank (map print_line ls) r
        ≡ replay_calls ls r
  unfolding replay_lines replay_calls
  replay_lines-print_line [] r = refl
  replay_lines-print_line (l ∷ ls) r =
      rw (print_line_long l, split_line-print_line l)
        (>>=_ext (replay_line io get_io_client rpc num_servers c h filename rank l r) _ _
          (λ r'. replay_lines-print_line ls r'))

  -- A trace that was written with one line for each call is replayed as these calls, in turn, as
  -- often as asked for, whatever the library.
  pub replay_trace-print_trace :
      (n : ℕ) (ls : List Line) (r : Replay io get_io_client rpc num_servers c)
      → replay_trace io get_io_client rpc num_servers c h filename rank (some (print_trace ls)) n r
        ≡ replay_times n ls r
  unfolding replay_trace replay_times
  replay_trace-print_trace zero ls r = refl
  replay_trace-print_trace (suc n) ls r =
      ap
        (λ lines.
          replay_lines io get_io_client rpc num_servers c h filename rank lines r
          >>= replay_trace io get_io_client rpc num_servers c h filename rank
              (some (print_trace ls)) n)
        (lines_of-print_trace ls)
      ∙ rw (replay_lines-print_line ls r)
          (>>=_ext (replay_calls ls r) _ _ (λ r'. replay_trace-print_trace n ls r'))
