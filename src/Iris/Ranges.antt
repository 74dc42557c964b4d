-- ===== src/Iris/Ranges.antt =====
-- The objects that hold a range of a file: what it says that they do, one object and the others.
use mathlib.Core.Path.{subst}
use symbios.Base.{
  ℕ, zero, suc, ◌+◌, ◌-◌, ◌*◌, ◌/◌, ◌%◌, ◌≤◌, ◌<◌, ◌≡◌, ◌≢◌, ◌∙◌, sym, ap, ◌⊎◌, inl, inr, ◌++◌,
  arith, length, drop, length-drop,
}
use symbios.Base.Result.{Result, ok}
use symbios.Base.Text.{Bytes, print_ℕ}
use symbios.Base.Text.Decimal.{print_ℕ-injective}
use symbios.Base.Memory.{slice, take-length, append_cancel}
use symbios.Objects.{Data, Io}
use symbios.Storage.{Storage, IsRangeStorage, Missing, Keeps}

-- The storage behind one index.
abbrev pub storage_at : Io → ℕ → Storage
storage_at io i = record {
  State = io.State;
  read = io.read i;
  write = io.write i;
  remove = io.remove i;
  size = io.size i;
}

-- The object that holds the bytes from `i * max` on.
abbrev pub object_id : Bytes → ℕ → Bytes
object_id file i = file ++ print_ℕ i

pub object_id-ne : (file : Bytes) (i j : ℕ) → i ≢ j → object_id file i ≢ object_id file j
object_id-ne file i j ne e = ne (print_ℕ-injective i j (append_cancel file _ _ e))

module _ (io : Io) (i max : ℕ) (file block : Bytes) where
  -- No object from number `n` on is there.
  abbrev pub MissingFrom : io.State → ℕ → Type 0
  MissingFrom s n = (j : ℕ) → n ≤ j → Missing (storage_at io i) s (object_id file j)

  -- Objects from number `n` on hold the `left` bytes of the block from `from` on.
  abbrev pub HoldFrom : io.State → ℕ → ℕ → ℕ → Type 0
  HoldFrom s n from left =
      (j : ℕ)
      → j * max < left
      → Keeps (storage_at io i) s (object_id file (n + j)) (slice (from + j * max) max block)

  -- Objects below number `n` are read as before.
  abbrev pub SameBelow : io.State → io.State → ℕ → Type 0
  SameBelow s t n =
      (j : ℕ) (q d : Data) → j < n → q.id ≡ object_id file j → io.read i t q d ≡ io.read i s q d

module _ (io : Io) (i : ℕ) (law : IsRangeStorage (storage_at io i)) (max : ℕ) (some_max : 0 < max)
    (file block : Bytes) where
  abbrev pub Wrote : io.State → ℕ → ℕ → ℕ → Result io.State → Type 0
  Wrote s n from left r =
      (t : io.State) × (r ≡ ok t)
      × HoldFrom io i max file block t n from left
      × SameBelow io i max file block s t n

  pub Keeps-as :
      (t : io.State) (id id' v v' : Bytes)
      → id ≡ id'
      → v ≡ v'
      → Keeps (storage_at io i) t id v
      → Keeps (storage_at io i) t id' v'
  Keeps-as t id id' v v' e f keeps =
      subst (λ x. Keeps (storage_at io i) t x v') e
        (subst (λ x. Keeps (storage_at io i) t id x) f keeps)

  -- The objects from number `n` on, of which the first is `v`.
  pub hold_cons :
      (t : io.State) (n from left size : ℕ) (v : Bytes)
      → v ≡ slice from max block
      → (left ≤ max) ⊎ (size ≡ max)
      → Keeps (storage_at io i) t (object_id file n) v
      → HoldFrom io i max file block t (suc n) (from + size) (left - size)
      → HoldFrom io i max file block t n from left
  hold_cons t n from left size v same last first hold zero h =
      Keeps-as t (object_id file n) _ v _ (ap (object_id file) (omega arith))
        (same ∙ ap (λ k. slice k max block) (omega arith)) first
  hold_cons t n from left size v same last first hold (suc k) h =
      Keeps-as t (object_id file (suc n + k)) _ (slice (from + size + k * max) max block) _
        (ap (object_id file) (omega arith))
        (ap (λ k. slice k max block)
          (elim last [
            | inl small ↦ absurd (omega (arith, small, h))
            | inr full ↦ omega (arith, full)
          ]))
        (hold k (elim last [
          | inl small ↦ absurd (omega (arith, small, h))
          | inr full ↦ omega (arith, full, h)
        ]))

  -- One object written, and the objects behind it.
  pub one_more :
      (s : io.State) (n from left size : ℕ) (v : Bytes) (r : Result io.State)
      → v ≡ slice from max block
      → (left ≤ max) ⊎ (size ≡ max)
      → MissingFrom io i max file block s n
      → Wrote (law.after s (object_id file n) v) (suc n) (from + size) (left - size) r
      → Wrote s n from left r
  one_more s n from left size v r same last absent (t, e, hold, below) = (
    t,
    e,
    hold_cons t n from left size v same last
        (λ q d is start whole to_start.
          below n q d (omega arith) is
          ∙ law.holds s (object_id file n) v (absent n (omega arith)) q d is start whole to_start)
        hold,
    λ j q d h is.
        below j q d (omega arith) is
        ∙ law.others s (object_id file n) v q d
            (λ e. object_id-ne file j n (omega arith) (sym is ∙ e)),
  )

  pub still_missing :
      (s : io.State) (n : ℕ) (v : Bytes)
      → MissingFrom io i max file block s n
      → MissingFrom io i max file block (law.after s (object_id file n) v) (suc n)
  still_missing s n v absent j h q d is =
      let (c, e) = absent j (omega arith) q d is in
      (
        c,
        law.others s (object_id file n) v q d
              (λ same. object_id-ne file j n (omega arith) (sym is ∙ same))
            ∙ e,
      )

  -- The range of the block that one object takes.
  pub whole_piece :
      (from left size : ℕ)
      → length block ≡ from + left
      → size ≤ left
      → (size ≡ left) ⊎ (size ≡ max)
      → size ≤ max
      → slice from size block ≡ slice from max block
  whole_piece from left size fits _ (inl e) h =
      take-length (drop from block) size (omega (arith, e, fits, length-drop from block))
      ∙ sym (take-length (drop from block) max (omega (arith, e, h, fits, length-drop from block)))
  whole_piece from left size fits _ (inr e) h = ap (λ k. slice from k block) e

  pub next_object :
      (pos : ℕ) → ((pos + max) / max ≡ suc (pos / max)) × ((pos + max) % max ≡ pos % max)
  next_object pos = grind arith
