-- ===== src/DoubleBuffer.antt =====
-- src/symbios/storage_cost_predictor/double_buffer.h: a queue in two halves, each with a lock. Each
-- call is one step; which locks `try_lock` finds free is an argument.
pub mod Contents
pub mod Threads
use symbios.Base.{Bool, true, false, not, Option, none, some, List, [], ◌∷◌, ◌++◌, if◌then◌else◌}

module _ {ℓ} (T : Type ℓ) where
  -- `lists_`; the half of thread number 0 is the first.
  pub record DoubleBuffer : Type ℓ where
    pub first : List T
    pub second : List T

  -- `lists_[tid].push_back(obj)`; `true` is index 1.
  unfoldable pub put : Bool → T → DoubleBuffer → DoubleBuffer
  put false obj d = record d { first = d.first ++ (obj ∷ []) }
  put true obj d = record d { second = d.second ++ (obj ∷ []) }

  -- Both locks are tried; if neither is free, the first one tried is waited for.
  unfoldable pub push : Bool → Bool → Bool → T → DoubleBuffer → DoubleBuffer
  unfolding put
  push tid first_free second_free obj d =
      if first_free
      then put tid obj d
      else if second_free
      then put (not tid) obj d
      else put tid obj d

  unfoldable pub take_first : List T → DoubleBuffer → Option (T × DoubleBuffer)
  take_first [] d = none
  take_first (obj ∷ rest) d = some (obj, record d { first = rest })

  unfoldable pub take_second : List T → DoubleBuffer → Option (T × DoubleBuffer)
  take_second [] d = none
  take_second (obj ∷ rest) d = some (obj, record d { second = rest })

  unfoldable pub or_else :
      Option (T × DoubleBuffer) → Option (T × DoubleBuffer) → Option (T × DoubleBuffer)
  or_else none other = other
  or_else (some p) other = some p

  -- `none` is the answer `false`.
  unfoldable pub pop : Bool → DoubleBuffer → Option (T × DoubleBuffer)
  unfolding take_first take_second or_else
  pop false d = or_else (take_first d.first d) (take_second d.second d)
  pop true d = or_else (take_second d.second d) (take_first d.first d)

  unfoldable pub pop_sync : DoubleBuffer → Option (T × DoubleBuffer)
  unfolding take_first take_second or_else
  pop_sync d = or_else (take_first d.first d) (take_second d.second d)
