-- ===== src/DoubleBuffer/Threads/Kept.antt =====
-- Whatever the order of the accesses, no object is lost and none is made, and accesses to a list do
-- not meet.
use mathlib.Core.List.Perm
use mathlib.Core.List.{Perm, perm_middle, perm_append_singleton}
use mathlib.Core.Path.{subst}
use symbios.Base.{
  ℕ, ◌≡◌, ◌≢◌, refl, sym, Bool, true, false, List, [], ◌∷◌, ◌++◌, append_assoc, arith,
}
use symbios.Storage.Family.{update}
use symbios.DoubleBuffer.{DoubleBuffer}
use symbios.DoubleBuffer.Contents.{contents}
use symbios.DoubleBuffer.Threads.Exclusive.{Exclusive, Steps-Exclusive}
use symbios.DoubleBuffer.Threads.Loaded.{Loaded, Steps-Loaded}
use symbios.DoubleBuffer.Threads.{
  Shared, Pc, faulted, half, set_lock, append_to, take_from, Move, start_push, try_free, try_busy,
  try_busy_again, lock_push, load_list, push_back, unlock, start_pop, some_left, none_left,
  none_at_all, lock_pop, pop_front, pop_nothing, System, pick, Steps, here, later, initial,
}

module _ {ℓ} {T : Type ℓ} where
  -- What was taken and what is left are what was pushed and what was there at the start.
  abbrev Kept : DoubleBuffer T → Shared T → Type ℓ
  Kept d s = Perm (s.taken ++ contents T s.buffer) (s.pushed ++ contents T d)

  set_lock-Kept :
      (d : DoubleBuffer T) (tid v : Bool) (s : Shared T) → Kept d s → Kept d (set_lock tid v s)
  set_lock-Kept d false v s h = h
  set_lock-Kept d true v s h = h

  -- One object more, anywhere in a list of lists.
  more :
      (taken first second : List T) (obj : T)
      → Perm (taken ++ ((first ++ (obj ∷ [])) ++ second)) (obj ∷ (taken ++ (first ++ second)))
  more taken first second obj =
      Perm.trans
        (Perm.append_left taken (
          subst (λ l. Perm l (obj ∷ (first ++ second))) (sym (append_assoc first (obj ∷ []) second))
            (perm_middle first second)))
        (perm_middle taken (first ++ second))

  more_last :
      (taken first second : List T) (obj : T)
      → Perm (taken ++ (first ++ (second ++ (obj ∷ [])))) (obj ∷ (taken ++ (first ++ second)))
  more_last taken first second obj =
      Perm.trans
        (Perm.append_left taken (
          subst (λ l. Perm l (obj ∷ (first ++ second))) (append_assoc first second (obj ∷ []))
            (perm_append_singleton obj (first ++ second))))
        (perm_middle taken (first ++ second))

  append_to-Kept :
      (d : DoubleBuffer T) (tid : Bool) (obj : T) (found : List T) (s : Shared T)
      → found ≡ half tid s
      → Kept d s
      → Kept d (append_to tid obj found s)
  append_to-Kept d false obj found s e h =
      subst (λ l. Kept d (append_to false obj l s)) (sym e)
        (Perm.trans (more s.taken s.buffer.first s.buffer.second obj) (Perm.cons obj h))
  append_to-Kept d true obj found s e h =
      subst (λ l. Kept d (append_to true obj l s)) (sym e)
        (Perm.trans (more_last s.taken s.buffer.first s.buffer.second obj) (Perm.cons obj h))

  take_from-Kept :
      (d : DoubleBuffer T) (tid : Bool) (obj : T) (rest : List T) (s : Shared T)
      → half tid s ≡ obj ∷ rest
      → Kept d s
      → Kept d (take_from tid obj rest s)
  take_from-Kept d false obj rest s e h =
      Perm.trans (Perm.symm (perm_middle s.taken (rest ++ s.buffer.second))) (
        subst (λ (l : List T). Perm (s.taken ++ (l ++ s.buffer.second)) (s.pushed ++ contents T d))
          e h)
  take_from-Kept d true obj rest s e h =
      Perm.trans (Perm.symm (perm_middle s.taken (s.buffer.first ++ rest))) (
        Perm.trans (Perm.append_left s.taken (Perm.symm (perm_middle s.buffer.first rest))) (
          subst (λ (l : List T). Perm (s.taken ++ (s.buffer.first ++ l)) (s.pushed ++ contents T d))
            e h))

  Move-Kept :
      {s m : Shared T} {p q : Pc T} (d : DoubleBuffer T)
      → Move s p m q
      → Loaded s p
      → Kept d s
      → Kept d m
  Move-Kept d (start_push tid obj) l h = h
  Move-Kept {s} d (try_free {tid} e) l h = set_lock-Kept d tid true s h
  Move-Kept d try_busy l h = h
  Move-Kept d try_busy_again l h = h
  Move-Kept {s} d (lock_push {tid} e) l h = set_lock-Kept d tid true s h
  Move-Kept d load_list l h = h
  Move-Kept {s} d (push_back {tid} {obj} {found}) l h = append_to-Kept d tid obj found s l h
  Move-Kept {s} d (unlock {tid}) l h = set_lock-Kept d tid false s h
  Move-Kept d (start_pop tid) l h = h
  Move-Kept d (some_left e) l h = h
  Move-Kept d (none_left e) l h = h
  Move-Kept d (none_at_all e) l h = h
  Move-Kept {s} d (lock_pop {tid} e) l h = set_lock-Kept d tid true s h
  Move-Kept {s} d (pop_front {tid} obj rest e) l h = take_from-Kept d tid obj rest s e h
  Move-Kept d (pop_nothing e) l h = h

  Steps-contents :
      {Pops : ℕ → Type 0} {n : ℕ} (d : DoubleBuffer T) {s : System T}
      → Steps Pops n (initial d) s
      → Kept d s.shared
  Steps-contents d here = Perm.refl (contents T d)
  Steps-contents d (later r (pick i lt allowed mv)) =
      Move-Kept d mv (Steps-Loaded d r i) (Steps-contents d r)

  -- Whichever threads push and pop, and in whatever order their accesses come, as long as none has
  -- taken the front of an empty list: the objects that were taken and those that are left are, in
  -- some order, the objects that were pushed and those that were there before; and no two threads
  -- have the lock of one half, from taking it to releasing it, which is then taken.
  pub Steps-Kept :
      {Pops : ℕ → Type 0} {n : ℕ} (d : DoubleBuffer T) {s : System T}
      → Steps Pops n (initial d) s
      → ((i : ℕ) (tid : Bool) → s.pc i ≢ faulted tid)
      → Perm (s.shared.taken ++ contents T s.shared.buffer) (s.shared.pushed ++ contents T d)
        × Exclusive s
  Steps-Kept d r sound = (Steps-contents d r, Steps-Exclusive d r)

  -- Two threads that pop: both find the only object of the first half, and the second one takes the
  -- front of an empty list.
  pub two_consumers :
      (obj : T) (second : List T)
      → (s : System T) × Steps
          (λ i. Unit {0})
          2
          (initial (record { first = obj ∷ []; second = second }))
          s
        × (s.pc 1 ≡ faulted false)
  unfolding update
  two_consumers obj second = (
    _,
    later
        (later
          (later
            (later
              (later
                (later
                  (later
                    (later (later here (pick 0 (omega arith) (λ x. tt) (start_pop false)))
                      (pick 0 (omega arith) (λ x. tt) (some_left (λ e. cc))))
                    (pick 1 (omega arith) (λ x. tt) (start_pop false)))
                  (pick 1 (omega arith) (λ x. tt) (some_left (λ e. cc))))
                (pick 0 (omega arith) (λ x. tt) (lock_pop refl)))
              (pick 0 (omega arith) (λ x. tt) (pop_front obj [] refl)))
            (pick 0 (omega arith) (λ x. tt) unlock))
          (pick 1 (omega arith) (λ x. tt) (lock_pop refl)))
        (pick 1 (omega arith) (λ x. tt) (pop_nothing refl)),
    refl,
  )
