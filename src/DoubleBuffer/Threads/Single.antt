-- ===== src/DoubleBuffer/Threads/Single.antt =====
-- With one thread that pops, what it found in a half is still there when it has the lock.
use symbios.Base.{
  ℕ, ◌≡◌, ◌≢◌, ◌∙◌, refl, sym, ap, Bool, true, false, List, [], ◌∷◌, ◌++◌, ℕ_discrete,
}
use symbios.Storage.Family.{update, update_self, update_ne}
use symbios.DoubleBuffer.{DoubleBuffer}
use symbios.DoubleBuffer.Threads.{
  Shared, Pc, idle, trying, waiting_push, pushing, storing, leaving, testing, waiting_pop, popping,
  faulted, half, set_lock, append_to, Move, start_push, try_free, try_busy, try_busy_again,
  lock_push, load_list, push_back, unlock, start_pop, some_left, none_left, none_at_all, lock_pop,
  pop_front, pop_nothing, StartsPop, System, Step, pick, Steps, here, later, initial,
}
use mathlib.Core.Path.{subst}

module _ {ℓ} {T : Type ℓ} where
  abbrev NotPop : Pc T → Type 0
  NotPop (testing tid last) = ⊥
  NotPop (waiting_pop tid) = ⊥
  NotPop (popping tid) = ⊥
  NotPop (faulted tid) = ⊥
  NotPop p = Unit

  -- What a thread that pops has found is there.
  abbrev Sure : Shared T → Pc T → Type ℓ
  Sure s (waiting_pop tid) = half tid s ≢ []
  Sure s (popping tid) = half tid s ≢ []
  Sure s (faulted tid) = ¬ Unit {ℓ}
  Sure s p = Unit

  pub half-set_lock : (t tid v : Bool) (s : Shared T) → half t (set_lock tid v s) ≡ half t s
  half-set_lock false false v s = refl
  half-set_lock false true v s = refl
  half-set_lock true false v s = refl
  half-set_lock true true v s = refl

  append_ne : (l : List T) (obj : T) → l ++ (obj ∷ []) ≢ []
  append_ne [] obj e = cc
  append_ne (x ∷ l) obj e = cc

  half-append_to :
      (t tid : Bool) (obj : T) (found : List T) (s : Shared T)
      → half t s ≢ []
      → half t (append_to tid obj found s) ≢ []
  half-append_to false false obj found s h = append_ne found obj
  half-append_to false true obj found s h = h
  half-append_to true false obj found s h = h
  half-append_to true true obj found s h = append_ne found obj

  abbrev Kept : Shared T → Shared T → Type ℓ
  Kept s m = (t : Bool) → half t s ≢ [] → half t m ≢ []

  set_lock-Kept : (tid v : Bool) (s : Shared T) → Kept s (set_lock tid v s)
  set_lock-Kept tid v s t h e = h (sym (half-set_lock t tid v s) ∙ e)

  -- A thread that does not pop empties no half.
  Move-NotPop :
      {s m : Shared T} {p q : Pc T}
      → Move s p m q
      → NotPop p
      → ¬ StartsPop p q
      → NotPop q × Kept s m
  Move-NotPop (start_push tid obj) h quiet = (tt, λ t k. k)
  Move-NotPop {s} (try_free {tid} e) h quiet = (tt, set_lock-Kept tid true s)
  Move-NotPop try_busy h quiet = (tt, λ t k. k)
  Move-NotPop try_busy_again h quiet = (tt, λ t k. k)
  Move-NotPop {s} (lock_push {tid} e) h quiet = (tt, set_lock-Kept tid true s)
  Move-NotPop load_list h quiet = (tt, λ t k. k)
  Move-NotPop {s} (push_back {tid} {obj} {found}) h quiet =
      (tt, λ t k. half-append_to t tid obj found s k)
  Move-NotPop {s} (unlock {tid}) h quiet = (tt, set_lock-Kept tid false s)
  Move-NotPop (start_pop tid) h quiet = absurd (quiet tt)
  Move-NotPop (some_left e) h quiet = absurd h
  Move-NotPop (none_left e) h quiet = absurd h
  Move-NotPop (none_at_all e) h quiet = absurd h
  Move-NotPop (lock_pop e) h quiet = absurd h
  Move-NotPop (pop_front obj rest e) h quiet = absurd h
  Move-NotPop (pop_nothing e) h quiet = absurd h

  Sure-Kept : {s m : Shared T} (p : Pc T) → Kept s m → Sure s p → Sure m p
  Sure-Kept (waiting_pop tid) kept h = kept tid h
  Sure-Kept (popping tid) kept h = kept tid h
  Sure-Kept (faulted tid) kept h = h
  Sure-Kept idle kept h = tt
  Sure-Kept (trying tid last obj) kept h = tt
  Sure-Kept (waiting_push tid obj) kept h = tt
  Sure-Kept (pushing tid obj) kept h = tt
  Sure-Kept (storing tid obj found) kept h = tt
  Sure-Kept (leaving tid) kept h = tt
  Sure-Kept (testing tid last) kept h = tt

  Move-Sure : {s m : Shared T} {p q : Pc T} → Move s p m q → Sure s p → Sure m q
  Move-Sure (start_push tid obj) h = tt
  Move-Sure (try_free e) h = tt
  Move-Sure try_busy h = tt
  Move-Sure try_busy_again h = tt
  Move-Sure (lock_push e) h = tt
  Move-Sure load_list h = tt
  Move-Sure (push_back) h = tt
  Move-Sure (unlock) h = tt
  Move-Sure (start_pop tid) h = tt
  Move-Sure (some_left e) h = e
  Move-Sure (none_left e) h = tt
  Move-Sure (none_at_all e) h = tt
  Move-Sure {s} (lock_pop {tid} e) h = set_lock-Kept tid true s tid h
  Move-Sure (pop_front obj rest e) h = tt
  Move-Sure (pop_nothing e) h = λ u. h e

-- Only thread `c` pops, and it is sure of what it found.
pub record Single {ℓ} {T : Type ℓ} (c : ℕ) (s : System T) : Type ℓ where
  pub others : (i : ℕ) → i ≢ c → NotPop (s.pc i)
  pub sure : Sure s.shared (s.pc c)

module _ {ℓ} {T : Type ℓ} (c n : ℕ) where
  pub initial-Single : (d : DoubleBuffer T) → Single c (initial d)
  initial-Single d = record { others = λ i ne. tt; sure = tt }

  pub Step-Single : {s t : System T} → Step (λ i. i ≡ c) n s t → Single c s → Single c t
  Step-Single {s} (pick i {m} {p} lt allowed mv) inv = elim (ℕ_discrete i c) [
    | yes e ↦ record {
      others =
          λ j ne. subst NotPop (sym (update_ne s.pc i j p (λ h. ne (h ∙ e)))) (inv.others j ne);
      sure =
          subst (Sure m) (sym (ap (update s.pc i p) (sym e) ∙ update_self s.pc i p))
            (Move-Sure mv (subst (λ k. Sure s.shared (s.pc k)) (sym e) inv.sure));
    }
    | no ne ↦
        let (quiet, kept) = Move-NotPop mv (inv.others i ne) (λ h. ne (allowed h)) in
        record {
          others = λ j other. elim (ℕ_discrete j i) [
            | yes e ↦ subst NotPop (sym (ap (update s.pc i p) e ∙ update_self s.pc i p)) quiet
            | no h ↦ subst NotPop (sym (update_ne s.pc i j p h)) (inv.others j other)
          ];
          sure =
              subst (Sure m) (sym (update_ne s.pc i c p (λ h. ne (sym h))))
                (Sure-Kept (s.pc c) kept inv.sure);
        }
  ]

  pub Steps-Single : {s t : System T} → Steps (λ i. i ≡ c) n s t → Single c s → Single c t
  Steps-Single here inv = inv
  Steps-Single (later r st) inv = Step-Single st (Steps-Single r inv)

  pub Single-faulted : {s : System T} (i : ℕ) (tid : Bool) → Single c s → s.pc i ≢ faulted tid
  Single-faulted {s} i tid inv e = elim (ℕ_discrete i c) [
    | yes same ↦ subst (Sure s.shared) (ap s.pc (sym same) ∙ e) inv.sure tt
    | no ne ↦ subst NotPop e (inv.others i ne)
  ]

  -- If only one thread ever calls `pop` or `pop_sync`, then no thread takes the front of an empty
  -- list, in whatever order the accesses of any number of threads come.
  pub one_consumer :
      (d : DoubleBuffer T) (s : System T)
      → Steps (λ i. i ≡ c) n (initial d) s
      → (i : ℕ) (tid : Bool) → s.pc i ≢ faulted tid
  one_consumer d s r i tid = Single-faulted i tid (Steps-Single r (initial-Single d))
