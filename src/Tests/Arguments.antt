-- ===== src/Tests/Arguments.antt =====
-- The command line of a program with two options, one of which has a default.
use symbios.Base.{ℕ, ◌≡◌, ◌*◌, ◌%◌, ◌^◌, refl, Option, none, List, [], ◌∷◌, ◌++◌, arith}
use symbios.Base.Result.{ok}
use symbios.Base.Text.{Bytes, codes, print_ℕ}
use symbios.Collection.{bytes_eq}
use symbios.Arguments.{Arg, new_arg, with_default, int_type, string_values, arg_iter, find_arg}
use symbios.Arguments.Numbers.{to_size}
use symbios.Arguments.Given.{Iterated, arg_iter-words_of}
use symbios.Arguments.Sizes.{to_size-print_ℕ}

no_float : Bytes → Option ℕ
no_float s = none

abbrev options : List (Bytes × Arg ℕ no_float)
options =
    (codes "-n", new_arg ℕ no_float (codes "-n") int_type)
    ∷ (codes "-f", with_default ℕ no_float (codes "-f") (string_values (codes "a" ∷ [])))
    ∷ []

arg_iter-words_of_example :
    Iterated ℕ no_float options
      (codes "-f")
      (codes "b" ∷ codes "c" ∷ [])
      (arg_iter ℕ no_float options (codes "-f" ∷ codes "b" ∷ codes "-f" ∷ codes "c" ∷ []))
unfolding find_arg bytes_eq
arg_iter-words_of_example =
    arg_iter-words_of ℕ no_float (codes "c" ∷ []) options (codes "f") (codes "b")
      (with_default ℕ no_float (codes "-f") (string_values (codes "a" ∷ []))) (codes "a" ∷ []) refl
      refl refl

to_size-print_ℕ_example :
    (to_size (print_ℕ 35 ++ (b'k' ∷ [])) ≡ ok (35 * 1024 % 2 ^ 64))
    × (to_size (print_ℕ 35 ++ (b'K' ∷ [])) ≡ ok (35 * 1024 % 2 ^ 64))
    × (to_size (print_ℕ 35 ++ (b'm' ∷ [])) ≡ ok (35 * 1048576 % 2 ^ 64))
    × (to_size (print_ℕ 35 ++ (b'M' ∷ [])) ≡ ok (35 * 1048576 % 2 ^ 64))
    × (to_size (print_ℕ 35 ++ (b'g' ∷ [])) ≡ ok (35 * 1073741824 % 2 ^ 64))
    × (to_size (print_ℕ 35 ++ (b'G' ∷ [])) ≡ ok (35 * 1073741824 % 2 ^ 64))
    × (to_size (print_ℕ 35 ++ (b'b' ∷ [])) ≡ ok 35)
to_size-print_ℕ_example =
    to_size-print_ℕ 35 b'b' (omega arith) refl (omega arith) (omega arith) (omega arith)
      (omega arith) (omega arith) (omega arith)
