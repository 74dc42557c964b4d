-- ===== src/Tests/Threads.antt =====
-- Two threads and a double buffer: one pushes, the other one pops.
use mathlib.Core.List.{Perm}
use symbios.Base.{ℕ, ◌≤◌, ◌*◌, ◌≡◌, ◌≢◌, refl, true, false, [], ◌∷◌, arith}
use symbios.Storage.Family.{update}
use symbios.DoubleBuffer.{DoubleBuffer}
use symbios.DoubleBuffer.Threads.{
  Pc, idle, faulted, start_push, start_pop, try_free, load_list, push_back, some_left, System,
  Steps, pick, here, later, initial,
}
use symbios.DoubleBuffer.Threads.Single.{one_consumer}
use symbios.DoubleBuffer.Threads.Ends.{Run, go, stop, next, Quiet, accesses_of, Run-le, calls_end}
use symbios.DoubleBuffer.Threads.Exclusive.{Exclusive}
use symbios.DoubleBuffer.Threads.Kept.{Steps-Kept, two_consumers}

abbrev buffer : DoubleBuffer ℕ
buffer = record { first = 1 ∷ []; second = [] }

-- Thread 0 has found the object of the first half; thread 1 has pushed another one.
abbrev state : System ℕ
state = record {
  shared = record {
    buffer = record { first = 1 ∷ 4 ∷ []; second = [] };
    lock_first = true;
    lock_second = false;
    pushed = 4 ∷ [];
    taken = [];
  };
  pc =
      update
        (update
          (update
            (update
              (update (update (λ i. idle) 1 (Pc.trying false false 4)) 0 (Pc.testing false false)) 0
              (Pc.waiting_pop false))
            1 (Pc.pushing false 4))
          1 (Pc.storing false 4 (1 ∷ [])))
        1 (Pc.leaving false);
}

reached : Steps (λ i. i ≡ 0) 2 (initial buffer) state
unfolding update
reached =
    later
      (later
        (later
          (later
            (later (later here (pick 1 (omega arith) (λ x. absurd x) (start_push false 4)))
              (pick 0 (omega arith) (λ x. refl) (start_pop false)))
            (pick 0 (omega arith) (λ x. absurd x) (some_left (λ e. cc))))
          (pick 1 (omega arith) (λ x. absurd x) (try_free refl)))
        (pick 1 (omega arith) (λ x. absurd x) load_list))
      (pick 1 (omega arith) (λ x. absurd x) push_back)

one_consumer_example : state.pc 0 ≢ faulted false
one_consumer_example = one_consumer 0 2 buffer state reached 0 false

calls_end_example : (k : ℕ) × (t : System ℕ) × Run 2 k state t × Quiet 2 2 t
calls_end_example = calls_end 2 0 buffer state reached

Steps-Kept_example : Perm {A = ℕ} (1 ∷ 4 ∷ []) (4 ∷ 1 ∷ []) × Exclusive state
Steps-Kept_example =
    Steps-Kept buffer reached (λ i tid. one_consumer 0 2 buffer state reached i tid)

-- A push on free locks.
abbrev pushing : System ℕ
pushing = record (initial buffer) { pc = update (λ i. idle) 0 (Pc.trying false false 7) }

two_accesses : (t : System ℕ) × Run 2 2 pushing t
unfolding update
two_accesses = (
  _,
  next (go 0 (omega arith) (λ e. cc) (try_free refl))
      (next (go 0 (omega arith) (λ e. cc) load_list) stop),
)

Run-le_example : (2 ≤ 6) × (◌≤◌ 2 (6 * 2))
unfolding accesses_of update two_accesses
Run-le_example = Run-le 2 two_accesses.1 0

two_consumers_example :
    (s : System ℕ) × Steps (λ i. Unit {0}) 2 (initial (record { first = 7 ∷ []; second = [] })) s
    × (s.pc 1 ≡ faulted false)
two_consumers_example = two_consumers 7 []
