-- ===== src/Configuration/Values.antt =====
-- What a configured number becomes.
use symbios.Base.{ℕ, ◌%◌, ◌^◌, ◌<◌, ◌≡◌, some, arith, lt→ltb}
use symbios.Base.Int.{pos, size_of_int}
use symbios.Base.Result.{ok}
use symbios.Base.Text.{print_ℤ}
use symbios.Base.Text.Decimal.{atoi-print_ℤ, print_ℤ-Lacks}
use symbios.Configuration.Variables.{Environment}
use symbios.Configuration.Variables.Replacing.{replace_env_variable-plain}
use symbios.Configuration.{integer, value, as_int, as_value, config_number}

low_bits : (n : ℕ) → size_of_int (pos n) % 2 ^ 16 ≡ n % 2 ^ 16
unfolding size_of_int
low_bits n = ground arith

-- A number of the document that is not negative and fits an `int` is configured by its low 16 bits,
-- so as it is if it is below 65536: it goes through its decimal text, in which no variable is found.
pub config_number-integer :
    (env : Environment) (n variable : ℕ)
    → n < 2 ^ 31
    → config_number env (some (value (integer (pos n)))) variable ≡ ok (n % 2 ^ 16)
unfolding config_number as_value as_int
config_number-integer env n variable small = rw (
  lt→ltb n (2 ^ 31) small,
  replace_env_variable-plain env (print_ℤ (pos n)) (print_ℤ-Lacks b'$' (pos n) (omega arith)),
  atoi-print_ℤ (pos n),
  low_bits n,
)
