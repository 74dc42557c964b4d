-- ===== src/Configuration/Variables.antt =====
-- include/symbios/common/configuration_manager.h, `replaceEnvVariable`: a variable of the
-- environment in a configured text.
pub mod Replacing
use symbios.Base.{
  ℕ, zero, suc, ◌+◌, Bool, ◌&&◌, ◌||◌, Option, none, some, List, [], ◌∷◌, ◌++◌, ◌==◌, if◌then◌else◌,
  length, ◌≡◌,
}
use symbios.Base.Result.{Result, ok, err, thrown, undefined_env_variable}
use symbios.Base.Text.{Bytes, Lacks}

-- The text up to the first brace that closes, on the same line.
unfoldable pub up_to_brace : Bytes → Option Bytes
up_to_brace [] = none
up_to_brace (c ∷ s) =
    let rest = up_to_brace s in
    if c == b'}'
    then some []
    else if (c == b'\n') || (c == b'\r')
    then none
    else elim rest [ none ↦ none | some name ↦ some (c ∷ name) ]

-- The name, if the text starts with a match of the regular expression.
unfoldable pub variable_at : Bytes → Option Bytes
unfolding up_to_brace
variable_at [] = none
variable_at (c ∷ []) = none
variable_at (c ∷ d ∷ s) = if (c == b'$') && (d == b'{') then up_to_brace s else none

-- `regex_search`: the name in the leftmost match.
unfoldable pub search : Bytes → Option Bytes
unfolding variable_at
search [] = none
search (c ∷ s) =
    let rest = search s in elim (variable_at (c ∷ s)) [ none ↦ rest | some name ↦ some name ]

-- The C and C++ libraries: `getenv`, and what a match becomes with the replacement text,
-- in which `$` starts a directive of `regex_replace`. Directives that name the text around the match
-- are left out.
pub record Environment : Type 0 where
  pub getenv : Bytes → Option Bytes
  pub expand : Bytes → Bytes → Bytes

-- A replacement text without directives is put in as it is.
pub record IsEnvironment (env : Environment) : Type 0 where
  pub plain : (value matched : Bytes) → Lacks b'$' value → env.expand value matched ≡ value

abbrev pub braced : Bytes → Bytes
braced name = b'$' ∷ b'{' ∷ name ++ (b'}' ∷ [])

module _ (env : Environment) where
  -- `regex_replace`, behind as many bytes as are still part of a match.
  unfoldable pub replace_from : Bytes → ℕ → Bytes → Bytes
  unfolding variable_at
  replace_from value k [] = []
  replace_from value (suc k) (c ∷ s) = replace_from value k s
  replace_from value zero (c ∷ s) = elim (variable_at (c ∷ s)) [
    | none ↦ c ∷ replace_from value 0 s
    | some name ↦ env.expand value (braced name) ++ replace_from value (length name + 2) s
  ]

  -- `replaceEnvVariable`. The two groups of the match are the same text, so that the set of
  -- variables has one.
  unfoldable pub replace_env_variable : Bytes → Result Bytes
  unfolding search replace_from
  replace_env_variable text = elim (search text) [
    | none ↦ ok text
    | some name ↦ elim (env.getenv name) [
      | none ↦ err (thrown undefined_env_variable)
      | some value ↦ ok (replace_from value 0 text)
    ]
  ]
