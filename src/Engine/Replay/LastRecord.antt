-- ===== src/Engine/Replay/LastRecord.antt =====
-- The last line of a trace is not replayed.
use symbios.Base.{
  ℕ, zero, suc, ◌+◌, ◌-◌, ◌≤◌, ◌<◌, ◌≡◌, ◌∙◌, sym, refl, ap, inl, inr, Bool-cases, Option, some, [],
  ◌∷◌, ◌++◌, arith, ◌==◌,
}
use symbios.Base.Result.{Result, ok, ◌>>=◌, >>=_ext, >>=_assoc}
use symbios.Base.Text.{Bytes, Lacks}
use symbios.Collection.{Collection}
use symbios.RedisClient.{Redis}
use symbios.Engine.Trace.{TraceRecord, get_record_count, read_line, parse_record, next_trace_record}
use symbios.Engine.Replay.{Stream, Globals, replay_one, replay, do_io}

get_record_count-append :
    (a b : Bytes)
    → Lacks 255 a
    → get_record_count (a ++ b) ≡ get_record_count a + get_record_count b
unfolding get_record_count
get_record_count-append [] b h = omega arith
get_record_count-append (c ∷ a) b h = ground (arith, h.0, get_record_count-append a b h.1)

-- A line is read inside a part that has one.
read_line-append :
    (n : ℕ) (a b : Bytes)
    → 0 < get_record_count a
    → (read_line n (a ++ b) ≡ ((read_line n a).0, (read_line n a).1 ++ b))
      × (get_record_count a ≤ get_record_count (read_line n a).1 + 1)
unfolding get_record_count read_line
read_line-append zero a b h = (refl, omega arith)
read_line-append (suc n) [] b h = absurd (omega arith)
read_line-append (suc n) (c ∷ a) b h = elim (Bool-cases (c == 255)) [
  | inl end ↦ absurd (omega (arith, rw end at h))
  | inr more ↦ elim (Bool-cases (c == b'\n')) [
    | inl e ↦ rw (more, e) (refl, omega arith)
    | inr e ↦
        let (same, left) = read_line-append n a b (rw (more, e) at h) in
        rw (more, e) (ap (λ p. (c ∷ p.0, p.1)) same, left)
  ]
]

none_counted : get_record_count [] ≡ 0
unfolding get_record_count
none_counted = refl

next-append :
    (c : ℕ) (f x : Bytes) (before : TraceRecord)
    → 0 < get_record_count (c ∷ f)
    → next_trace_record ((c ∷ f) ++ x) before ≡ (
        parse_record (read_line 1023 (c ∷ f)).0 before >>= λ r.
        ok (some r, (read_line 1023 (c ∷ f)).1 ++ x))
unfolding next_trace_record
next-append c f x before h =
    ap (λ p. parse_record p.0 before >>= λ r. ok (some r, p.1))
      (read_line-append 1023 (c ∷ f) x h).0

module _ (stream : Stream) (redis : Redis) (mongo : Collection) where
  replay-append :
      (target : Bytes) (rank : ℕ) (random : ℕ → ℕ) (n : ℕ) (front x y : Bytes)
      (before : TraceRecord) (g : Globals stream redis mongo)
      → n ≤ get_record_count front
      → replay stream redis mongo target rank random n (front ++ x) before g
        ≡ replay stream redis mongo target rank random n (front ++ y) before g
  unfolding replay
  replay-append target rank random zero front x y before g h = refl
  replay-append target rank random (suc n) [] x y before g h = absurd (omega (arith, none_counted))
  replay-append target rank random (suc n) (c ∷ f) x y before g h =
      ap (λ q. q >>= after x) (next-append c f x before (omega arith))
      ∙ >>=_assoc line (λ r. ok (some r, left ++ x)) (after x)
      ∙ >>=_ext line (λ r. after x (some r, left ++ x)) (λ r. after y (some r, left ++ y))
          (λ r.
            >>=_ext (replay_one stream redis mongo target rank (random n) (some r) before g) _ _
              (λ p.
                replay-append target rank random n left x y p.0 p.1
                  (omega (arith, (read_line-append 1023 (c ∷ f) x (omega arith)).1))))
      ∙ sym (>>=_assoc line (λ r. ok (some r, left ++ y)) (after y))
      ∙ sym (ap (λ q. q >>= after y) (next-append c f y before (omega arith)))
    where
      line : Result TraceRecord
      line = parse_record (read_line 1023 (c ∷ f)).0 before

      left : Bytes
      left = (read_line 1023 (c ∷ f)).1

      after : Bytes → Option TraceRecord × Bytes → Result (Globals stream redis mongo)
      after z next = replay_one stream redis mongo target rank (random n) next.0 before g >>= λ p.
          replay stream redis mongo target rank random n next.1 p.0 p.1

  -- Two traces that differ only behind the newline of their last line but one, with no byte 255 in
  -- front of it and each with one more newline that is counted, are replayed alike, on any target: the
  -- last line is counted and never read.
  pub do_io-append :
      (target front x y : Bytes) (rank : ℕ) (random : ℕ → ℕ) (before : TraceRecord)
      (g : Globals stream redis mongo)
      → Lacks 255 front
      → get_record_count x ≡ 1
      → get_record_count y ≡ 1
      → do_io stream redis mongo target (some (front ++ x)) rank random before g
        ≡ do_io stream redis mongo target (some (front ++ y)) rank random before g
  unfolding do_io
  do_io-append target front x y rank random before g lacks hx hy =
      ap (λ n. replay stream redis mongo target rank random n (front ++ x) before g) (rounds x hx)
      ∙ replay-append target rank random (get_record_count front) front x y before g (omega arith)
      ∙ ap (λ n. replay stream redis mongo target rank random n (front ++ y) before g)
          (sym (rounds y hy))
    where
      rounds :
          (z : Bytes)
          → get_record_count z ≡ 1
          → get_record_count (front ++ z) - 1 ≡ get_record_count front
      rounds z h = omega (arith, get_record_count-append front z lacks)
