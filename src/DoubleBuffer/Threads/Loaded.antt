-- ===== src/DoubleBuffer/Threads/Loaded.antt =====
-- The list that `push_back` has found is still that of its half when it is changed.
use mathlib.Core.Path.{subst}
use symbios.Base.{ℕ, ◌≡◌, refl, sym, ◌∙◌, ap, ◌⊎◌, inl, inr, Bool, true, false, List, ℕ_discrete}
use symbios.Storage.Family.{update, update_self, update_ne}
use symbios.DoubleBuffer.{DoubleBuffer}
use symbios.DoubleBuffer.Threads.{
  Shared, Pc, idle, trying, waiting_push, pushing, storing, leaving, testing, waiting_pop, popping,
  faulted, half, append_to, take_from, Move, start_push, try_free, try_busy, try_busy_again,
  lock_push, load_list, push_back, unlock, start_pop, some_left, none_left, none_at_all, lock_pop,
  pop_front, pop_nothing, System, pick, Steps, here, later, initial,
}
use symbios.DoubleBuffer.Threads.Single.{half-set_lock}
use symbios.DoubleBuffer.Threads.Progress.{Holds}
use symbios.DoubleBuffer.Threads.Exclusive.{Steps-Exclusive}

module _ {ℓ} {T : Type ℓ} where
  abbrev pub Loaded : Shared T → Pc T → Type ℓ
  Loaded s (storing tid obj found) = found ≡ half tid s
  Loaded s p = Unit

  Move-Loaded : {s m : Shared T} {p q : Pc T} → Move s p m q → Loaded m q
  Move-Loaded (start_push tid obj) = tt
  Move-Loaded (try_free e) = tt
  Move-Loaded try_busy = tt
  Move-Loaded try_busy_again = tt
  Move-Loaded (lock_push e) = tt
  Move-Loaded load_list = refl
  Move-Loaded push_back = tt
  Move-Loaded unlock = tt
  Move-Loaded (start_pop tid) = tt
  Move-Loaded (some_left e) = tt
  Move-Loaded (none_left e) = tt
  Move-Loaded (none_at_all e) = tt
  Move-Loaded (lock_pop e) = tt
  Move-Loaded (pop_front obj rest e) = tt
  Move-Loaded (pop_nothing e) = tt

  half-append :
      (t tid : Bool) (obj : T) (found : List T) (s : Shared T)
      → (half t (append_to tid obj found s) ≡ half t s) ⊎ (tid ≡ t)
  half-append false false obj found s = inr refl
  half-append true true obj found s = inr refl
  half-append false true obj found s = inl refl
  half-append true false obj found s = inl refl

  half-take :
      (t tid : Bool) (obj : T) (rest : List T) (s : Shared T)
      → (half t (take_from tid obj rest s) ≡ half t s) ⊎ (tid ≡ t)
  half-take false false obj rest s = inr refl
  half-take true true obj rest s = inr refl
  half-take false true obj rest s = inl refl
  half-take true false obj rest s = inl refl

  -- A half stays, unless the thread has its lock.
  Move-half :
      {s m : Shared T} {p q : Pc T} (t : Bool) → Move s p m q → (half t m ≡ half t s) ⊎ Holds t p
  Move-half t (start_push tid obj) = inl refl
  Move-half {s} t (try_free {tid} e) = inl (half-set_lock t tid true s)
  Move-half t try_busy = inl refl
  Move-half t try_busy_again = inl refl
  Move-half {s} t (lock_push {tid} e) = inl (half-set_lock t tid true s)
  Move-half t load_list = inl refl
  Move-half {s} t (push_back {tid} {obj} {found}) = half-append t tid obj found s
  Move-half {s} t (unlock {tid}) = inl (half-set_lock t tid false s)
  Move-half t (start_pop tid) = inl refl
  Move-half t (some_left e) = inl refl
  Move-half t (none_left e) = inl refl
  Move-half t (none_at_all e) = inl refl
  Move-half {s} t (lock_pop {tid} e) = inl (half-set_lock t tid true s)
  Move-half {s} t (pop_front {tid} obj rest e) = half-take t tid obj rest s
  Move-half t (pop_nothing e) = inl refl

  -- What another thread has found stays true.
  other-Loaded :
      {s m : Shared T} {p q : Pc T} (r : Pc T)
      → Move s p m q
      → ((t : Bool) → Holds t p → Holds t r → ⊥)
      → Loaded s r
      → Loaded m r
  other-Loaded (storing tid obj found) mv apart h = elim (Move-half tid mv) [
    | inl same ↦ h ∙ sym same
    | inr had ↦ absurd (apart tid had refl)
  ]
  other-Loaded idle mv apart h = tt
  other-Loaded (trying tid last obj) mv apart h = tt
  other-Loaded (waiting_push tid obj) mv apart h = tt
  other-Loaded (pushing tid obj) mv apart h = tt
  other-Loaded (leaving tid) mv apart h = tt
  other-Loaded (testing tid last) mv apart h = tt
  other-Loaded (waiting_pop tid) mv apart h = tt
  other-Loaded (popping tid) mv apart h = tt
  other-Loaded (faulted tid) mv apart h = tt

  pub Steps-Loaded :
      {Pops : ℕ → Type 0} {n : ℕ} (d : DoubleBuffer T) {s : System T}
      → Steps Pops n (initial d) s
      → (j : ℕ) → Loaded s.shared (s.pc j)
  Steps-Loaded d here j = tt
  Steps-Loaded d (later {t} r (pick i {m} {p} lt allowed mv)) j = elim (ℕ_discrete j i) [
    | yes e ↦
        subst (Loaded m) (sym (ap (update t.pc i p) e ∙ update_self t.pc i p)) (Move-Loaded mv)
    | no ne ↦ subst (Loaded m) (sym (update_ne t.pc i j p ne)) (
        other-Loaded (t.pc j) mv (λ half had his. ne (Steps-Exclusive d r half j i his had).0)
          (Steps-Loaded d r j))
  ]
