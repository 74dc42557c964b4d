-- ===== src/Iris/Held.antt =====
-- The loop of `do_mapped_read` over objects that hold a block.
use mathlib.Core.Path.{subst}
use symbios.Base.{
  ℕ, ◌+◌, ◌-◌, ◌*◌, ◌/◌, ◌%◌, ◌^◌, ◌≤◌, ◌<◌, ◌≡◌, ◌∙◌, ap, ◌⊎◌, inl, inr, refl, false, Option, some,
  List, [], ◌∷◌, arith, ltb, if◌then◌else◌, length, drop, length-take, length-drop,
}
use symbios.Base.Int.{size_difference, size_of_int-int_of_size}
use symbios.Base.Result.{ok}
use symbios.Base.Text.{Bytes}
use symbios.Base.Memory.{slice}
use symbios.Objects.{Data, Io, no_data}
use symbios.Iris.{DataDescriptor}
use symbios.Iris.Mapped.{Pieces}
use symbios.Iris.Ranges.{object_id, HoldFrom}
use symbios.Iris.Handler.{LibHandler, read_objects, shown, next_offset}

-- `data_offset` counts up as long as it is an `int`.
next_offset_add : (from size : ℕ) → from + size < 2 ^ 31 → next_offset from size ≡ from + size
next_offset_add from size small = size_of_int-int_of_size (from + size) small

within : (size end : ℕ) → end ≤ size → ltb size end ≡ false
within size end h = ground arith

-- Where an object starts.
starts : (max n : ℕ) → 0 < max → ((n * max) / max ≡ n) × ((n * max) % max ≡ 0)
starts max n some_max = grind arith

module _ (io : Io) (h : LibHandler) (quiet : h.print_p ≡ false) (s : io.State) (max : ℕ)
    (some_max : 0 < max) (block : Bytes) (n : ℕ) (small : length block < 2 ^ 31)
    (hold : HoldFrom io h.db_type max h.file block s n 0 (length block)) where
  shown_quiet :
      (size : ℕ) (buffer : Option Bytes) (out : Bytes) → shown h.print_p size buffer out ≡ ok out
  unfolding shown
  shown_quiet size buffer out = rw quiet refl

  length-held :
      (j size left : ℕ)
      → j * max + left ≡ length block
      → (size ≡ left) ⊎ (size ≡ max)
      → size ≤ left
      → size ≤ max
      → size ≡ length (slice (0 + j * max) max block)
  length-held j size left fits ends below room = elim ends [
    | inl e ↦
        omega
          (arith, e, length-take max (drop (0 + j * max) block), length-drop (0 + j * max) block)
    | inr e ↦
        omega
          (arith, e, length-take max (drop (0 + j * max) block), length-drop (0 + j * max) block)
  ]

  -- Object `j` of the block is read as it is.
  answer :
      (o : DataDescriptor) (os : List DataDescriptor) (j left : ℕ) (d : Data)
      → Pieces max h.file left ((n + j) * max) (o ∷ os)
      → j * max + left ≡ length block
      → d.position ≡ 0
      → io.read h.db_type s
          (record no_data {
            id = o.id;
            position = o.position;
            data_size = o.size;
            storage_index = h.db_type;
          })
          d
        ≡ ok (record d {
          buffer = some (slice (0 + j * max) max block);
          data_size = length (slice (0 + j * max) max block);
        })
  answer o os j left d p fits start =
      hold j (omega (arith, fits, p.3, p.4)) _ d
        (p.0 ∙ ap (object_id h.file) (starts max (n + j) some_max).0)
        (p.1 ∙ (starts max (n + j) some_max).1)
        (inr (
          length-held j o.size left fits
            (elim p.6 [
              | inl e ↦ inl e
              | inr e ↦ inr (omega (arith, e, p.1, (starts max (n + j) some_max).1))
            ])
            p.4 (omega (arith, p.5))))
        start

  -- One round, which leaves what is printed as it is.
  round :
      (o : DataDescriptor) (os : List DataDescriptor) (j left : ℕ) (out : Bytes)
      → Pieces max h.file left ((n + j) * max) (o ∷ os)
      → j * max + left ≡ length block
      → read_objects io h (length block) (o ∷ os) (j * max) s out
        ≡ read_objects io h (length block) os (j * max + o.size) s out
  unfolding read_objects
  round o os j left out p fits =
      rw
        (
          answer o os j left
              (record no_data {
                data_size =
                    if ltb (length block) ((j * max + o.size) % 2 ^ 64)
                    then size_difference (length block) (j * max)
                    else o.size;
              })
              p fits refl,
          shown_quiet o.size (some (slice (0 + j * max) max block)) out,
          next_offset_add (j * max) o.size (omega (arith, fits, p.4, small)),
          within (length block) (j * max + o.size) (omega (arith, fits, p.4)),
        )
        refl

  pub read_objects_held :
      (objs : List DataDescriptor) (j left : ℕ) (out : Bytes)
      → Pieces max h.file left ((n + j) * max) objs
      → j * max + left ≡ length block
      → read_objects io h (length block) objs (j * max) s out ≡ ok out
  unfolding read_objects
  read_objects_held [] j left out p fits = refl
  read_objects_held (o ∷ []) j left out p fits = round o [] j left out p fits
  read_objects_held (o ∷ o' ∷ os) j left out p fits =
      round o (o' ∷ os) j left out p fits
      ∙ ap (λ k. read_objects io h (length block) (o' ∷ os) k s out) (omega (arith, full))
      ∙ read_objects_held (o' ∷ os) (j + 1) (left - o.size) out
          (subst (λ k. Pieces max h.file (left - o.size) k (o' ∷ os)) (omega (arith, full)) p.7)
          (omega (arith, full, fits, p.4))
    where
      full : o.size ≡ max
      full = elim p.6 [
        | inl e ↦ absurd (omega (arith, e, p.7.3, p.7.4))
        | inr e ↦ omega (arith, e, p.1, (starts max (n + j) some_max).1)
      ]
