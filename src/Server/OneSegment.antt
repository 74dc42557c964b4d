-- ===== src/Server/OneSegment.antt =====
-- A request for an object of one segment.
use symbios.Base.{
  ℕ, ◌+◌, ◌-◌, ◌/◌, ◌%◌, ◌<◌, ◌≤◌, ◌≡◌, refl, Bool, true, false, ◌||◌, some, [], ◌∷◌, append-nil,
  arith, length, leb, ltb, ◌==◌, if◌then◌else◌,
}
use symbios.Base.Result.{ok, ◌>>=◌}
use symbios.Base.Text.{Bytes}
use symbios.Base.Memory.{load_lem, take-length, append_cancel}
use symbios.Base.Memory
use symbios.Objects.{Data, no_data}
use symbios.Orchestrator.Segments.{
  piece_size, relative_offset, distribution_of, locate_loop, distributions_for,
}
use symbios.Server.{part_of, concat_parts}

pub zero_div : (max : ℕ) → 0 < max → 0 / max ≡ 0
zero_div max h = ground arith

pub zero_mod : (max : ℕ) → 0 < max → 0 % max ≡ 0
zero_mod max h = ground arith

ltb_zero : (n : ℕ) → ltb n 0 ≡ false
ltb_zero n = ground arith

leb_zero : (n : ℕ) → leb 0 n ≡ true
leb_zero n = ground arith

piece_size_all : (max n : ℕ) → n ≤ max → piece_size max 0 n ≡ n
unfolding piece_size
piece_size_all max n h = ground arith

same_zero : (b : Bool) (x : ℕ) → x ≡ 0 → (if b then 0 else x) ≡ 0
same_zero true x h = refl
same_zero false x h = h

or_true : (b : Bool) → (b || true) ≡ true
or_true true = refl
or_true false = refl

-- A request from the start, for no more than a segment, of an object of one segment.
pub distributions_for-one :
    (max : ℕ) (q link : Data)
    → 0 < max
    → q.position ≡ 0
    → q.data_size ≤ max
    → distributions_for max q (link ∷ []) ≡ distribution_of max link 0 q.data_size 0 ∷ []
unfolding distributions_for locate_loop relative_offset
distributions_for-one max q link some_bytes start fits = rw (
  start,
  zero_div max some_bytes,
  leb_zero ((0 + q.data_size) / max),
  or_true (q.data_size == 0),
  same_zero (q.data_size == 0) (0 % max) (zero_mod max some_bytes),
  piece_size_all max q.data_size fits,
)

pub part_of-whole :
    (d : Data) (b : Bytes)
    → d.buffer ≡ some b
    → d.position ≡ 0
    → d.data_size ≡ length b
    → concat_parts (d ∷ []) ≡ ok b
unfolding concat_parts part_of
part_of-whole d b hb hp hs = rw (
  hb,
  hp,
  hs,
  ltb_zero (length b),
  load_lem b 0 (length b - 0) (omega arith),
  take-length b (length b - 0) (omega arith),
  append-nil b,
)

pub store-one :
    (k : ℕ) (link : Data)
    → k ≡ 0
    → (Memory.store (no_data ∷ []) k (link ∷ []) >>= λ links. ok links) ≡ ok (link ∷ [])
unfolding Memory.store
store-one k link h = rw (h)
