-- ===== src/DoubleBuffer/Threads/Progress.antt =====
-- A thread that is inside a call can go on, or waits for a lock whose holder can.
use mathlib.Core.Path.{subst}
use symbios.Base.{
  ℕ, ◌<◌, ◌≡◌, ◌≢◌, ◌∙◌, refl, sym, ◌⊎◌, inl, inr, Bool, true, false, Bool-cases, List, [], ◌∷◌,
}
use symbios.Storage.Family.{update, update_self, update_ne}
use symbios.DoubleBuffer.{DoubleBuffer}
use symbios.DoubleBuffer.Threads.{
  Shared, Pc, idle, trying, waiting_push, pushing, storing, leaving, testing, waiting_pop, popping,
  faulted, half, locked, set_lock, append_to, take_from, Move, start_push, try_free, try_busy,
  try_busy_again, lock_push, load_list, push_back, unlock, start_pop, some_left, none_left,
  none_at_all, lock_pop, pop_front, pop_nothing, System, pick, Steps, here, later, initial,
}

same_half : (a b : Bool) → (a ≡ b) ⊎ (a ≢ b)
same_half false false = inl refl
same_half false true = inr (λ e. cc)
same_half true false = inr (λ e. cc)
same_half true true = inl refl

module _ {ℓ} {T : Type ℓ} where
  -- The thread has the lock of that half.
  abbrev pub Holds : Bool → Pc T → Type 0
  Holds t (pushing tid obj) = tid ≡ t
  Holds t (storing tid obj found) = tid ≡ t
  Holds t (leaving tid) = tid ≡ t
  Holds t (popping tid) = tid ≡ t
  Holds t (faulted tid) = tid ≡ t
  Holds t p = ⊥

  locked_set :
      (t tid : Bool) (s : Shared T)
      → locked t (set_lock tid true s) ≡ true
      → (tid ≡ t) ⊎ (locked t s ≡ true)
  locked_set false false s h = inl refl
  locked_set true true s h = inl refl
  locked_set false true s h = inr h
  locked_set true false s h = inr h

  locked_unset :
      (t tid : Bool) (s : Shared T)
      → locked t (set_lock tid false s) ≡ true
      → (tid ≢ t) × (locked t s ≡ true)
  locked_unset false false s h = cc
  locked_unset true true s h = cc
  locked_unset false true s h = (λ e. cc, h)
  locked_unset true false s h = (λ e. cc, h)

  pub locked-append :
      (t tid : Bool) (obj : T) (found : List T) (s : Shared T)
      → locked t (append_to tid obj found s) ≡ locked t s
  locked-append false false obj found s = refl
  locked-append true true obj found s = refl
  locked-append false true obj found s = refl
  locked-append true false obj found s = refl

  pub locked-take :
      (t tid : Bool) (obj : T) (rest : List T) (s : Shared T)
      → locked t (take_from tid obj rest s) ≡ locked t s
  locked-take false false obj rest s = refl
  locked-take true true obj rest s = refl
  locked-take false true obj rest s = refl
  locked-take true false obj rest s = refl

  -- Whoever has a lock behind an access: the thread itself, or the one that had it before.
  abbrev Handed : Bool → Shared T → Pc T → Pc T → Type 0
  Handed t s p q = Holds t q ⊎ ((locked t s ≡ true) × ¬ Holds t p)

  taken_lock :
      (t tid : Bool) (s : Shared T) (p q : Pc T)
      → (tid ≡ t → Holds t q)
      → ¬ Holds t p
      → locked t (set_lock tid true s) ≡ true
      → Handed t s p q
  taken_lock t tid s p q mine free h = elim (locked_set t tid s h) [
    | inl e ↦ inl (mine e)
    | inr k ↦ inr (k, free)
  ]

  kept_lock :
      (t tid : Bool) (s : Shared T) (p q : Pc T)
      → (Holds t p → Holds t q)
      → (Holds t p ⊎ ¬ Holds t p)
      → locked t s ≡ true
      → Handed t s p q
  kept_lock t tid s p q mine held h = elim held [ inl e ↦ inl (mine e) | inr k ↦ inr (h, k) ]

  Move-Handed :
      {s m : Shared T} {p q : Pc T} (t : Bool) → Move s p m q → locked t m ≡ true → Handed t s p q
  Move-Handed t (start_push tid obj) h = inr (h, λ x. x)
  Move-Handed {s} t (try_free {tid} {last} {obj} e) h =
      taken_lock t tid s (trying tid last obj) (pushing tid obj) (λ x. x) (λ x. x) h
  Move-Handed t try_busy h = inr (h, λ x. x)
  Move-Handed t try_busy_again h = inr (h, λ x. x)
  Move-Handed {s} t (lock_push {tid} {obj} e) h =
      taken_lock t tid s (waiting_push tid obj) (pushing tid obj) (λ x. x) (λ x. x) h
  Move-Handed {s} t (load_list {tid} {obj}) h =
      kept_lock t tid s (pushing tid obj) (storing tid obj (half tid s)) (λ x. x) (same_half tid t)
        h
  Move-Handed {s} t (push_back {tid} {obj} {found}) h =
      kept_lock t tid s (storing tid obj found) (leaving tid) (λ x. x) (same_half tid t)
        (sym (locked-append t tid obj found s) ∙ h)
  Move-Handed {s} t (unlock {tid}) h = let (ne, k) = locked_unset t tid s h in inr (k, ne)
  Move-Handed t (start_pop tid) h = inr (h, λ x. x)
  Move-Handed t (some_left e) h = inr (h, λ x. x)
  Move-Handed t (none_left e) h = inr (h, λ x. x)
  Move-Handed t (none_at_all e) h = inr (h, λ x. x)
  Move-Handed {s} t (lock_pop {tid} e) h =
      taken_lock t tid s (waiting_pop tid) (popping tid) (λ x. x) (λ x. x) h
  Move-Handed {s} t (pop_front {tid} obj rest e) h =
      kept_lock t tid s (popping tid) (leaving tid) (λ x. x) (same_half tid t)
        (sym (locked-take t tid obj rest s) ∙ h)
  Move-Handed {s} t (pop_nothing {tid} e) h =
      kept_lock t tid s (popping tid) (faulted tid) (λ x. x) (same_half tid t) h

  -- Every lock that is taken is held by a thread.
  abbrev pub Held : ℕ → System T → Type 0
  Held n s = (t : Bool) → locked t s.shared ≡ true → (i : ℕ) × (i < n) × Holds t (s.pc i)

  pub initial-Held : (n : ℕ) (d : DoubleBuffer T) → Held n (initial d)
  initial-Held n d false h = cc
  initial-Held n d true h = cc

  pub Move-Held :
      {n : ℕ} (s : System T) (i : ℕ) {m : Shared T} {p : Pc T}
      → i < n
      → Move s.shared (s.pc i) m p
      → Held n s
      → Held n (record { shared = m; pc = update s.pc i p })
  Move-Held s i {m} {p} lt mv held t h = elim (Move-Handed t mv h) [
    | inl mine ↦ (i, lt, subst (Holds t) (sym (update_self s.pc i p)) mine)
    | inr (before, not_mine) ↦
        let (j, below, his) = held t before in
        (
          j,
          below,
          subst (Holds t)
              (sym (update_ne s.pc i j p (λ e. not_mine (subst (λ k. Holds t (s.pc k)) e his))))
              his,
        )
  ]

  pub Steps-Held :
      {Pops : ℕ → Type 0} {n : ℕ} {s t : System T} → Steps Pops n s t → Held n s → Held n t
  Steps-Held here held = held
  Steps-Held (later {t} r (pick i lt allowed mv)) held = Move-Held t i lt mv (Steps-Held r held)

  -- A next access.
  abbrev pub Next : Shared T → Pc T → Type ℓ
  Next s p = (m : Shared T) × (q : Pc T) × Move s p m q

  List-cases : (l : List T) → (l ≡ []) ⊎ ((x : T) × (r : List T) × (l ≡ x ∷ r))
  List-cases [] = inl refl
  List-cases (x ∷ r) = inr (x, r, refl)

  cons_ne : (l : List T) (x : T) (r : List T) → l ≡ x ∷ r → l ≢ []
  cons_ne l x r e h = cc

  lock-Next :
      (s : Shared T) (tid : Bool) (p q : Pc T)
      → (locked tid s ≡ false → Move s p (set_lock tid true s) q)
      → Next s p ⊎ ((t : Bool) × (locked t s ≡ true))
  lock-Next s tid p q free = elim (Bool-cases (locked tid s)) [
    | inl e ↦ inr (tid, e)
    | inr e ↦ inl (_, _, free e)
  ]

  Next-or_waits :
      (s : Shared T) (p : Pc T)
      → p ≢ idle
      → ((tid : Bool) → p ≢ faulted tid)
      → Next s p ⊎ ((t : Bool) × (locked t s ≡ true))
  Next-or_waits s idle busy fine = absurd (busy refl)
  Next-or_waits s (trying tid false obj) busy fine = elim (Bool-cases (locked tid s)) [
    | inl e ↦ inl (_, _, try_busy)
    | inr e ↦ inl (_, _, try_free e)
  ]
  Next-or_waits s (trying tid true obj) busy fine = elim (Bool-cases (locked tid s)) [
    | inl e ↦ inl (_, _, try_busy_again)
    | inr e ↦ inl (_, _, try_free e)
  ]
  Next-or_waits s (waiting_push tid obj) busy fine = lock-Next s tid _ _ lock_push
  Next-or_waits s (pushing tid obj) busy fine = inl (_, _, load_list)
  Next-or_waits s (storing tid obj found) busy fine = inl (_, _, push_back)
  Next-or_waits s (leaving tid) busy fine = inl (_, _, unlock)
  Next-or_waits s (testing tid false) busy fine = elim (List-cases (half tid s)) [
    | inl e ↦ inl (_, _, none_left e)
    | inr (x, r, e) ↦ inl (_, _, some_left (cons_ne _ x r e))
  ]
  Next-or_waits s (testing tid true) busy fine = elim (List-cases (half tid s)) [
    | inl e ↦ inl (_, _, none_at_all e)
    | inr (x, r, e) ↦ inl (_, _, some_left (cons_ne _ x r e))
  ]
  Next-or_waits s (waiting_pop tid) busy fine = lock-Next s tid _ _ lock_pop
  Next-or_waits s (popping tid) busy fine = elim (List-cases (half tid s)) [
    | inl e ↦ inl (_, _, pop_nothing e)
    | inr (x, r, e) ↦ inl (_, _, pop_front x r e)
  ]
  Next-or_waits s (faulted tid) busy fine = absurd (fine tid refl)

  holder-Next :
      (s : Shared T) (p : Pc T) (t : Bool)
      → Holds t p
      → ((tid : Bool) → p ≢ faulted tid)
      → Next s p × (p ≢ idle)
  holder-Next s (pushing tid obj) t h fine = ((_, _, load_list), λ e. cc)
  holder-Next s (storing tid obj found) t h fine = ((_, _, push_back), λ e. cc)
  holder-Next s (leaving tid) t h fine = ((_, _, unlock), λ e. cc)
  holder-Next s (popping tid) t h fine = (
    elim (List-cases (half tid s)) [
      | inl e ↦ (_, _, pop_nothing e)
      | inr (x, r, e) ↦ (_, _, pop_front x r e)
    ],
    λ e. cc,
  )
  holder-Next s (faulted tid) t h fine = absurd (fine tid refl)
  holder-Next s idle t h fine = absurd h
  holder-Next s (trying tid last obj) t h fine = absurd h
  holder-Next s (waiting_push tid obj) t h fine = absurd h
  holder-Next s (testing tid last) t h fine = absurd h
  holder-Next s (waiting_pop tid) t h fine = absurd h

  -- If a thread is inside a call, then one that is inside a call has a next access.
  pub Next-of :
      (n : ℕ) (s : System T) (j : ℕ)
      → Held n s
      → ((i : ℕ) (tid : Bool) → s.pc i ≢ faulted tid)
      → j < n
      → s.pc j ≢ idle
      → (i : ℕ) × (i < n) × (s.pc i ≢ idle) × Next s.shared (s.pc i)
  Next-of n s j held fine below busy = elim (Next-or_waits s.shared (s.pc j) busy (fine j)) [
    | inl next ↦ (j, below, busy, next)
    | inr (t, taken) ↦
        let (i, lt, holds) = held t taken in
        let (next, in_call) = holder-Next s.shared (s.pc i) t holds (fine i) in
        (i, lt, in_call, next)
  ]
