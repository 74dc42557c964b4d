-- ===== src/DoubleBuffer/Threads/Ends.antt =====
-- Calls end: every access inside a call brings it closer to its end.
use symbios.Base.{
  ℕ, zero, suc, ◌+◌, ◌*◌, ◌≤◌, ◌<◌, ◌≡◌, ◌≢◌, ◌∙◌, refl, sym, ap, ◌⊎◌, inl, inr, true, false, arith,
  dec_lt, ℕ_discrete, ◌==◌, if◌then◌else◌, ==-true, ==-false,
}
use symbios.Storage.Family.{update, update_self, update_ne}
use symbios.DoubleBuffer.{DoubleBuffer}
use symbios.DoubleBuffer.Threads.{
  Shared, Pc, idle, trying, waiting_push, pushing, storing, leaving, testing, waiting_pop, popping,
  faulted, Move, start_push, try_free, try_busy, try_busy_again, lock_push, load_list, push_back,
  unlock, start_pop, some_left, none_left, none_at_all, lock_pop, pop_front, pop_nothing, StartsPop,
  System, pick, Steps, initial,
}
use symbios.DoubleBuffer.Threads.Single.{
  Single, initial-Single, Step-Single, Steps-Single, Single-faulted,
}
use symbios.DoubleBuffer.Threads.Progress.{Held, initial-Held, Move-Held, Steps-Held, Next-of}

module _ {ℓ} {T : Type ℓ} where
  -- The accesses that a call has left at most.
  abbrev pub remaining : Pc T → ℕ
  remaining idle = 0
  remaining (trying tid false obj) = 6
  remaining (trying tid true obj) = 5
  remaining (waiting_push tid obj) = 4
  remaining (pushing tid obj) = 3
  remaining (storing tid obj found) = 2
  remaining (leaving tid) = 1
  remaining (testing tid false) = 5
  remaining (testing tid true) = 4
  remaining (waiting_pop tid) = 3
  remaining (popping tid) = 2
  remaining (faulted tid) = 0

  remaining-le : (p : Pc T) → remaining p ≤ 6
  remaining-le idle = omega arith
  remaining-le (trying tid false obj) = omega arith
  remaining-le (trying tid true obj) = omega arith
  remaining-le (waiting_push tid obj) = omega arith
  remaining-le (pushing tid obj) = omega arith
  remaining-le (storing tid obj found) = omega arith
  remaining-le (leaving tid) = omega arith
  remaining-le (testing tid false) = omega arith
  remaining-le (testing tid true) = omega arith
  remaining-le (waiting_pop tid) = omega arith
  remaining-le (popping tid) = omega arith
  remaining-le (faulted tid) = omega arith

  Move-remaining :
      {s m : Shared T} {p q : Pc T} → Move s p m q → p ≢ idle → remaining q < remaining p
  Move-remaining (start_push tid obj) busy = absurd (busy refl)
  Move-remaining (try_free {last = false} e) busy = omega arith
  Move-remaining (try_free {last = true} e) busy = omega arith
  Move-remaining try_busy busy = omega arith
  Move-remaining try_busy_again busy = omega arith
  Move-remaining (lock_push e) busy = omega arith
  Move-remaining load_list busy = omega arith
  Move-remaining push_back busy = omega arith
  Move-remaining unlock busy = omega arith
  Move-remaining (start_pop tid) busy = absurd (busy refl)
  Move-remaining (some_left {last = false} e) busy = omega arith
  Move-remaining (some_left {last = true} e) busy = omega arith
  Move-remaining (none_left e) busy = omega arith
  Move-remaining (none_at_all e) busy = omega arith
  Move-remaining (lock_pop e) busy = omega arith
  Move-remaining (pop_front obj rest e) busy = omega arith
  Move-remaining (pop_nothing e) busy = omega arith

  -- Of all threads together.
  pub all_remaining : ℕ → (ℕ → Pc T) → ℕ
  all_remaining zero pc = 0
  all_remaining (suc n) pc = remaining (pc n) + all_remaining n pc

  all_remaining-le : (n : ℕ) (pc : ℕ → Pc T) → all_remaining n pc ≤ 6 * n
  unfolding all_remaining
  all_remaining-le zero pc = omega arith
  all_remaining-le (suc n) pc = omega (arith, remaining-le (pc n), all_remaining-le n pc)

  all_remaining_above :
      (n : ℕ) (pc : ℕ → Pc T) (i : ℕ) (p : Pc T)
      → n ≤ i
      → all_remaining n (update pc i p) ≡ all_remaining n pc
  unfolding all_remaining
  all_remaining_above zero pc i p h = refl
  all_remaining_above (suc n) pc i p h = omega (
    arith,
    ap remaining (update_ne pc i n p (λ e. absurd (omega (arith, e, h)))),
    all_remaining_above n pc i p (omega (arith, h)),
  )

  all_remaining-update :
      (n : ℕ) (pc : ℕ → Pc T) (i : ℕ) (p : Pc T)
      → i < n
      → all_remaining n (update pc i p) + remaining (pc i) ≡ all_remaining n pc + remaining p
  unfolding all_remaining
  all_remaining-update zero pc i p h = absurd (omega (arith, h))
  all_remaining-update (suc n) pc i p h = elim (dec_lt i n) [
    | yes below ↦ omega (
      arith,
      ap remaining (update_ne pc i n p (λ e. absurd (omega (arith, e, below)))),
      all_remaining-update n pc i p below,
    )
    | no last ↦
        let same : i ≡ n = omega (arith, h, last) in
        omega (
          arith,
          ap remaining (ap (update pc i p) (sym same) ∙ update_self pc i p),
          ap (λ k. remaining (pc k)) same,
          all_remaining_above n pc i p (omega (arith, same)),
        )
  ]

module _ {ℓ} {T : Type ℓ} (n : ℕ) where
  -- An access of a thread that is inside a call.
  pub data Inside (s : System T) : System T → Type ℓ where
    go :
        (i : ℕ) {m : Shared T} {p : Pc T}
        → i < n
        → s.pc i ≢ idle
        → Move s.shared (s.pc i) m p
        → Inside s (record { shared = m; pc = update s.pc i p })

  -- So many of them, in turn.
  pub data Run : ℕ → System T → System T → Type ℓ where
    stop : {s : System T} → Run 0 s s
    next : {k : ℕ} {s t u : System T} → Inside s t → Run k t u → Run (suc k) s u

  Inside-less : {s t : System T} → Inside s t → all_remaining n t.pc < all_remaining n s.pc
  Inside-less {s} (go i {m} {p} lt busy mv) =
      omega (arith, all_remaining-update n s.pc i p lt, Move-remaining mv busy)

  Run-less : {k : ℕ} {s t : System T} → Run k s t → k + all_remaining n t.pc ≤ all_remaining n s.pc
  Run-less stop = omega arith
  Run-less (next st r) = omega (arith, Inside-less st, Run-less r)

  -- How many of them one thread makes.
  unfoldable pub accesses_of : ℕ → {k : ℕ} {s t : System T} → Run k s t → ℕ
  accesses_of i stop = 0
  accesses_of i (next (go j lt busy mv) r) =
      let rest = accesses_of i r in if i == j then suc rest else rest

  accesses_of-le :
      (i : ℕ) {k : ℕ} {s t : System T} (r : Run k s t)
      → accesses_of i r + remaining (t.pc i) ≤ remaining (s.pc i)
  unfolding accesses_of
  accesses_of-le i stop = omega arith
  accesses_of-le i {s} (next (go j {m} {p} lt busy mv) r) = elim (ℕ_discrete i j) [
    | yes e ↦ rw (==-true i j e) (
        omega (
          arith,
          accesses_of-le i r,
          ap (λ k. remaining (update s.pc j p k)) e ∙ ap remaining (update_self s.pc j p),
          ap (λ k. remaining (s.pc k)) e,
          Move-remaining mv busy,
        ))
    | no e ↦
        rw (==-false i j e)
          (omega (arith, accesses_of-le i r, ap remaining (update_ne s.pc j i p e)))
  ]

  -- From any state, threads that start no new call make at most six accesses each, and so at most
  -- six times their number in all, whatever the order, and however they find the locks and the lists.
  pub Run-le :
      {k : ℕ} {s t : System T} (r : Run k s t) (i : ℕ) → (accesses_of i r ≤ 6) × (k ≤ 6 * n)
  Run-le {s} r i = (
    omega (arith, accesses_of-le i r, remaining-le (s.pc i)),
    omega (arith, Run-less r, all_remaining-le n s.pc),
  )

  idle_cases : (p : Pc T) → (p ≡ idle) ⊎ (p ≢ idle)
  idle_cases idle = inl refl
  idle_cases (trying tid last obj) = inr (λ e. cc)
  idle_cases (waiting_push tid obj) = inr (λ e. cc)
  idle_cases (pushing tid obj) = inr (λ e. cc)
  idle_cases (storing tid obj found) = inr (λ e. cc)
  idle_cases (leaving tid) = inr (λ e. cc)
  idle_cases (testing tid last) = inr (λ e. cc)
  idle_cases (waiting_pop tid) = inr (λ e. cc)
  idle_cases (popping tid) = inr (λ e. cc)
  idle_cases (faulted tid) = inr (λ e. cc)

  starts_idle : (p q : Pc T) → StartsPop p q → p ≡ idle
  starts_idle idle q h = refl
  starts_idle (trying tid last obj) q h = absurd h
  starts_idle (waiting_push tid obj) q h = absurd h
  starts_idle (pushing tid obj) q h = absurd h
  starts_idle (storing tid obj found) q h = absurd h
  starts_idle (leaving tid) q h = absurd h
  starts_idle (testing tid last) q h = absurd h
  starts_idle (waiting_pop tid) q h = absurd h
  starts_idle (popping tid) q h = absurd h
  starts_idle (faulted tid) q h = absurd h

  -- No thread is in a call.
  abbrev pub Quiet : ℕ → System T → Type ℓ
  Quiet m s = (i : ℕ) → i < m → s.pc i ≡ idle

  busy_or_Quiet : (m : ℕ) (s : System T) → ((i : ℕ) × (i < m) × (s.pc i ≢ idle)) ⊎ Quiet m s
  busy_or_Quiet zero s = inr (λ i h. absurd (omega (arith, h)))
  busy_or_Quiet (suc m) s = elim (busy_or_Quiet m s) [
    | inl (i, lt, busy) ↦ inl (i, omega (arith, lt), busy)
    | inr quiet ↦ elim (idle_cases (s.pc m)) [
      | inr busy ↦ inl (m, omega arith, busy)
      | inl e ↦ inr (λ i h. elim (dec_lt i m) [
        | yes below ↦ quiet i below
        | no last ↦ ap s.pc (omega (arith, h, last)) ∙ e
      ])
    ]
  ]

  finish :
      (fuel c : ℕ) (s : System T)
      → Single c s
      → Held n s
      → all_remaining n s.pc ≤ fuel
      → (k : ℕ) × (t : System T) × Run k s t × Quiet n t
  finish zero c s single held h = elim (busy_or_Quiet n s) [
    | inr quiet ↦ (0, s, stop, quiet)
    | inl (j, below, busy) ↦
        let (i, lt, in_call, (m, p, mv)) =
          Next-of n s j held (λ i tid. Single-faulted c n i tid single) below busy in
        absurd (omega (arith, h, Inside-less {s = s} (go i lt in_call mv)))
  ]
  finish (suc fuel) c s single held h = elim (busy_or_Quiet n s) [
    | inr quiet ↦ (0, s, stop, quiet)
    | inl (j, below, busy) ↦
        let (i, lt, in_call, (m, p, mv)) =
          Next-of n s j held (λ i tid. Single-faulted c n i tid single) below busy in
        let (k, t, r, quiet) =
          finish fuel c (record { shared = m; pc = update s.pc i p })
            (Step-Single c n {s = s}
              (pick i lt (λ start. absurd (in_call (starts_idle (s.pc i) p start))) mv) single)
            (Move-Held s i lt mv held)
            (omega (arith, h, Inside-less {s = s} (go i lt in_call mv))) in
        (suc k, t, next (go i lt in_call mv) r, quiet)
  ]

  -- If only one thread ever calls `pop` or `pop_sync`, then from every state that the threads reach,
  -- there are accesses of the threads inside calls after which no thread is in a call.
  pub calls_end :
      (c : ℕ) (d : DoubleBuffer T) (s : System T)
      → Steps (λ i. i ≡ c) n (initial d) s
      → (k : ℕ) × (t : System T) × Run k s t × Quiet n t
  calls_end c d s r =
      finish (all_remaining n s.pc) c s (Steps-Single c n r (initial-Single c n d))
        (Steps-Held r (initial-Held n d)) (omega arith)
