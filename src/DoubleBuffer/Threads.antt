-- ===== src/DoubleBuffer/Threads.antt =====
-- double_buffer.h, a shared access at a time: threads that call `push`, `pop` and `pop_sync` in any
-- order. A size that `pop` tests is read in one access; the locks are taken and released by others.
pub mod Single
pub mod Progress
pub mod Ends
pub mod Exclusive
pub mod Loaded
pub mod Kept
use symbios.Base.{ℕ, ◌+◌, ◌<◌, ◌≡◌, ◌≢◌, Bool, true, false, not, List, [], ◌∷◌, ◌++◌, if◌then◌else◌}
use symbios.Storage.Family.{update}
use symbios.DoubleBuffer.{DoubleBuffer, put}

module _ {ℓ} (T : Type ℓ) where
  -- The lists and the locks, and what has been pushed and taken so far, the last one first.
  pub record Shared : Type ℓ where
    pub buffer : DoubleBuffer T
    pub lock_first : Bool
    pub lock_second : Bool
    pub pushed : List T
    pub taken : List T

  -- Where a thread stands, with its `tid` and the index of the round.
  pub data Pc : Type ℓ where
    idle : Pc
    trying : (tid last : Bool) → T → Pc  -- before `try_lock`
    waiting_push : (tid : Bool) → T → Pc  -- before `lock` in `push`
    pushing : (tid : Bool) → T → Pc  -- before `push_back`
    storing : (tid : Bool) → T → List T → Pc  -- in `push_back`, which has found this list
    leaving : (tid : Bool) → Pc  -- before `unlock`
    testing : (tid last : Bool) → Pc  -- before the test of the size
    waiting_pop : (tid : Bool) → Pc  -- before `lock` in `pop`
    popping : (tid : Bool) → Pc  -- before `front` and `pop_front`
    faulted : (tid : Bool) → Pc  -- the front of an empty list was taken

module _ {ℓ} {T : Type ℓ} where
  abbrev pub half : Bool → Shared T → List T
  half false s = s.buffer.first
  half true s = s.buffer.second

  abbrev pub locked : Bool → Shared T → Bool
  locked false s = s.lock_first
  locked true s = s.lock_second

  abbrev pub set_lock : Bool → Bool → Shared T → Shared T
  set_lock false v s = record s { lock_first = v }
  set_lock true v s = record s { lock_second = v }

  -- The list that was found, with one object more.
  abbrev pub append_to : Bool → T → List T → Shared T → Shared T
  append_to false obj found s = record s {
    buffer = record { first = found ++ (obj ∷ []); second = s.buffer.second };
    pushed = obj ∷ s.pushed;
  }
  append_to true obj found s = record s {
    buffer = record { first = s.buffer.first; second = found ++ (obj ∷ []) };
    pushed = obj ∷ s.pushed;
  }

  abbrev pub take_from : Bool → T → List T → Shared T → Shared T
  take_from false obj rest s = record s {
    buffer = record { first = rest; second = s.buffer.second };
    taken = obj ∷ s.taken;
  }
  take_from true obj rest s = record s {
    buffer = record { first = s.buffer.first; second = rest };
    taken = obj ∷ s.taken;
  }

  -- One access of one thread; `push_back` finds the list in one and changes it in another. The
  -- behaviour behind `pop_nothing` is undefined, and other threads may go on. `pop_sync` is `pop` with `tid` 0. `try_lock` of the standard library may
  -- fail on a lock that is free.
  pub data Move (s : Shared T) : Pc T → Shared T → Pc T → Type ℓ where
    start_push : (tid : Bool) (obj : T) → Move s idle s (trying tid false obj)
    try_free :
        {tid last : Bool} {obj : T}
        → locked tid s ≡ false
        → Move s (trying tid last obj) (set_lock tid true s) (pushing tid obj)
    try_busy : {tid : Bool} {obj : T} → Move s (trying tid false obj) s (trying (not tid) true obj)
    try_busy_again :
        {tid : Bool} {obj : T} → Move s (trying tid true obj) s (waiting_push (not tid) obj)
    lock_push :
        {tid : Bool} {obj : T}
        → locked tid s ≡ false
        → Move s (waiting_push tid obj) (set_lock tid true s) (pushing tid obj)
    load_list : {tid : Bool} {obj : T} → Move s (pushing tid obj) s (storing tid obj (half tid s))
    push_back :
        {tid : Bool} {obj : T} {found : List T}
        → Move s (storing tid obj found) (append_to tid obj found s) (leaving tid)
    unlock : {tid : Bool} → Move s (leaving tid) (set_lock tid false s) idle
    start_pop : (tid : Bool) → Move s idle s (testing tid false)
    some_left : {tid last : Bool} → half tid s ≢ [] → Move s (testing tid last) s (waiting_pop tid)
    none_left :
        {tid : Bool} → half tid s ≡ [] → Move s (testing tid false) s (testing (not tid) true)
    none_at_all : {tid : Bool} → half tid s ≡ [] → Move s (testing tid true) s idle
    lock_pop :
        {tid : Bool}
        → locked tid s ≡ false
        → Move s (waiting_pop tid) (set_lock tid true s) (popping tid)
    pop_front :
        {tid : Bool} (obj : T) (rest : List T)
        → half tid s ≡ obj ∷ rest
        → Move s (popping tid) (take_from tid obj rest s) (leaving tid)
    pop_nothing : {tid : Bool} → half tid s ≡ [] → Move s (popping tid) s (faulted tid)

  -- A thread starts to pop.
  abbrev pub StartsPop : Pc T → Pc T → Type 0
  StartsPop idle (testing tid last) = Unit
  StartsPop p q = ⊥

module _ {ℓ} (T : Type ℓ) where
  pub record System : Type ℓ where
    pub shared : Shared T
    pub pc : ℕ → Pc T

-- One access of one of `n` threads, of which those in `Pops` call `pop` and `pop_sync`.
module _ {ℓ} {T : Type ℓ} (Pops : ℕ → Type 0) (n : ℕ) where
  pub data Step (s : System T) : System T → Type ℓ where
    pick :
        (i : ℕ) {m : Shared T} {p : Pc T}
        → i < n
        → (StartsPop (s.pc i) p → Pops i)
        → Move s.shared (s.pc i) m p
        → Step s (record { shared = m; pc = update s.pc i p })

  pub data Steps (s : System T) : System T → Type ℓ where
    here : Steps s s
    later : {t u : System T} → Steps s t → Step t u → Steps s u

-- Both locks are free and no thread is in a call.
abbrev pub initial {ℓ} : {T : Type ℓ} → DoubleBuffer T → System T
initial d = record {
  shared = record { buffer = d; lock_first = false; lock_second = false; pushed = []; taken = [] };
  pc = λ i. idle;
}
