-- ===== src/DoubleBuffer/Threads/Exclusive.antt =====
-- No two threads are between taking and releasing the lock of one half.
use mathlib.Core.Path.{subst}
use symbios.Base.{ℕ, ◌≡◌, ◌≢◌, ◌∙◌, refl, sym, ap, ◌⊎◌, inl, inr, Bool, true, false, ℕ_discrete}
use symbios.Storage.Family.{update, update_self, update_ne}
use symbios.DoubleBuffer.{DoubleBuffer}
use symbios.DoubleBuffer.Threads.{
  Shared, Pc, locked, set_lock, Move, start_push, try_free, try_busy, try_busy_again, lock_push,
  load_list, push_back, unlock, start_pop, some_left, none_left, none_at_all, lock_pop, pop_front,
  pop_nothing, System, pick, Steps, here, later, initial,
}
use symbios.DoubleBuffer.Threads.Progress.{Holds, locked-append, locked-take}

module _ {ℓ} {T : Type ℓ} where
  -- At most one thread has the lock of a half, and then it is taken.
  abbrev pub Exclusive : System T → Type 0
  Exclusive s =
      (t : Bool) (i j : ℕ)
      → Holds t (s.pc i)
      → Holds t (s.pc j)
      → (i ≡ j) × (locked t s.shared ≡ true)

  -- A thread has a lock behind an access because it had it before, or because it was free.
  abbrev Gets : Bool → Shared T → Shared T → Pc T → Type 0
  Gets t s m p =
      (Holds t p × (locked t m ≡ locked t s)) ⊎ ((locked t s ≡ false) × (locked t m ≡ true))

  -- A lock that is taken stays so, unless the thread has it.
  abbrev Stays : Bool → Shared T → Shared T → Pc T → Type 0
  Stays t s m p = (locked t m ≡ locked t s) ⊎ ((locked t m ≡ true) ⊎ Holds t p)

  set_lock-Gets :
      (t tid : Bool) (s : Shared T) (p : Pc T)
      → locked tid s ≡ false
      → tid ≡ t
      → Gets t s (set_lock tid true s) p
  set_lock-Gets false false s p free e = inr (free, refl)
  set_lock-Gets true true s p free e = inr (free, refl)
  set_lock-Gets false true s p free e = cc
  set_lock-Gets true false s p free e = cc

  set_lock-Stays : (t tid : Bool) (s : Shared T) (p : Pc T) → Stays t s (set_lock tid true s) p
  set_lock-Stays false false s p = inr (inl refl)
  set_lock-Stays true true s p = inr (inl refl)
  set_lock-Stays false true s p = inl refl
  set_lock-Stays true false s p = inl refl

  unlock-Stays :
      (t tid : Bool) (s : Shared T) (p : Pc T)
      → (tid ≡ t → Holds t p)
      → Stays t s (set_lock tid false s) p
  unlock-Stays false false s p mine = inr (inr (mine refl))
  unlock-Stays true true s p mine = inr (inr (mine refl))
  unlock-Stays false true s p mine = inl refl
  unlock-Stays true false s p mine = inl refl

  Move-Gets : {s m : Shared T} {p q : Pc T} (t : Bool) → Move s p m q → Holds t q → Gets t s m p
  Move-Gets t (start_push tid obj) h = absurd h
  Move-Gets {s} t (try_free {tid} {last} {obj} e) h =
      set_lock-Gets t tid s (Pc.trying tid last obj) e h
  Move-Gets t try_busy h = absurd h
  Move-Gets t try_busy_again h = absurd h
  Move-Gets {s} t (lock_push {tid} {obj} e) h = set_lock-Gets t tid s (Pc.waiting_push tid obj) e h
  Move-Gets t load_list h = inl (h, refl)
  Move-Gets {s} t (push_back {tid} {obj} {found}) h = inl (h, locked-append t tid obj found s)
  Move-Gets t unlock h = absurd h
  Move-Gets t (start_pop tid) h = absurd h
  Move-Gets t (some_left e) h = absurd h
  Move-Gets t (none_left e) h = absurd h
  Move-Gets t (none_at_all e) h = absurd h
  Move-Gets {s} t (lock_pop {tid} e) h = set_lock-Gets t tid s (Pc.waiting_pop tid) e h
  Move-Gets {s} t (pop_front {tid} obj rest e) h = inl (h, locked-take t tid obj rest s)
  Move-Gets t (pop_nothing e) h = inl (h, refl)

  Move-Stays : {s m : Shared T} {p q : Pc T} (t : Bool) → Move s p m q → Stays t s m p
  Move-Stays t (start_push tid obj) = inl refl
  Move-Stays {s} t (try_free {tid} {last} {obj} e) = set_lock-Stays t tid s (Pc.trying tid last obj)
  Move-Stays t try_busy = inl refl
  Move-Stays t try_busy_again = inl refl
  Move-Stays {s} t (lock_push {tid} {obj} e) = set_lock-Stays t tid s (Pc.waiting_push tid obj)
  Move-Stays t load_list = inl refl
  Move-Stays {s} t (push_back {tid} {obj} {found}) = inl (locked-append t tid obj found s)
  Move-Stays {s} t (unlock {tid}) = unlock-Stays t tid s (Pc.leaving tid) (λ e. e)
  Move-Stays t (start_pop tid) = inl refl
  Move-Stays t (some_left e) = inl refl
  Move-Stays t (none_left e) = inl refl
  Move-Stays t (none_at_all e) = inl refl
  Move-Stays {s} t (lock_pop {tid} e) = set_lock-Stays t tid s (Pc.waiting_pop tid)
  Move-Stays {s} t (pop_front {tid} obj rest e) = inl (locked-take t tid obj rest s)
  Move-Stays t (pop_nothing e) = inl refl

  Move-Exclusive :
      (s : System T) (i : ℕ) {m : Shared T} {p : Pc T}
      → Move s.shared (s.pc i) m p
      → Exclusive s
      → Exclusive (record { shared = m; pc = update s.pc i p })
  Move-Exclusive s i {m} {p} mv alone t j k hj hk = elim (ℕ_discrete j i) [
    | yes ej ↦ elim (ℕ_discrete k i) [
      | yes ek ↦ (
        ej ∙ sym ek,
        elim (Move-Gets t mv (mine j ej hj)) [
          | inl (had, same) ↦ same ∙ (alone t i i had had).1
          | inr (free, taken) ↦ taken
        ],
      )
      | no nk ↦ absurd (only_mine (mine j ej hj) k nk (his k nk hk))
    ]
    | no nj ↦ elim (ℕ_discrete k i) [
      | yes ek ↦ absurd (only_mine (mine k ek hk) j nj (his j nj hj))
      | no nk ↦
          let (e, taken) = alone t j k (his j nj hj) (his k nk hk) in
          (
            e,
            elim (Move-Stays t mv) [
              | inl same ↦ same ∙ taken
              | inr (inl still) ↦ still
              | inr (inr had) ↦ absurd (nj (alone t j i (his j nj hj) had).0)
            ],
          )
    ]
  ]
    where
      mine : (x : ℕ) → x ≡ i → Holds t (update s.pc i p x) → Holds t p
      mine x e h = subst (Holds t) (ap (update s.pc i p) e ∙ update_self s.pc i p) h

      his : (x : ℕ) → x ≢ i → Holds t (update s.pc i p x) → Holds t (s.pc x)
      his x ne h = subst (Holds t) (update_ne s.pc i x p ne) h

      only_mine : Holds t p → (x : ℕ) → x ≢ i → Holds t (s.pc x) → ⊥
      only_mine h x ne hx = elim (Move-Gets t mv h) [
        | inl (had, same) ↦ ne (alone t x i hx had).0
        | inr (free, taken) ↦ cc (free, (alone t x x hx hx).1)
      ]

  initial-Exclusive : (d : DoubleBuffer T) → Exclusive (initial d)
  initial-Exclusive d t i j hi hj = absurd hi

  pub Steps-Exclusive :
      {Pops : ℕ → Type 0} {n : ℕ} (d : DoubleBuffer T) {s : System T}
      → Steps Pops n (initial d) s
      → Exclusive s
  Steps-Exclusive d here = initial-Exclusive d
  Steps-Exclusive d (later {t} r (pick i lt allowed mv)) =
      Move-Exclusive t i mv (Steps-Exclusive d r)
