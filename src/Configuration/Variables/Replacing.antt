-- ===== src/Configuration/Variables/Replacing.antt =====
-- What a configured text becomes: without a variable, and with one.
use symbios.Base.{
  ℕ, zero, suc, ◌+◌, ◌≡◌, ◌≢◌, ◌∙◌, refl, sym, ap, none, some, [], ◌∷◌, ◌++◌, append_assoc,
  ==-false, length, length-append, arith,
}
use symbios.Base.Result.{ok}
use symbios.Base.Text.{Bytes, Lacks}
use symbios.Configuration.Variables.{
  up_to_brace, variable_at, search, Environment, IsEnvironment, braced, replace_from,
  replace_env_variable,
}

up_to_brace_lem :
    (name rest : Bytes)
    → Lacks b'}' name
    → Lacks b'\n' name
    → Lacks b'\r' name
    → up_to_brace (name ++ b'}' ∷ rest) ≡ some name
unfolding up_to_brace
up_to_brace_lem [] rest h n r = refl
up_to_brace_lem (c ∷ name) rest (h, hs) (n, ns) (r, rs) =
    rw (
      ==-false c b'}' h,
      ==-false c b'\n' n,
      ==-false c b'\r' r,
      up_to_brace_lem name rest hs ns rs,
    )

variable_at-none : (c : ℕ) (s : Bytes) → c ≢ b'$' → variable_at (c ∷ s) ≡ none
unfolding variable_at
variable_at-none c [] ne = refl
variable_at-none c (d ∷ s) ne = rw (==-false c b'$' ne)

search_plain : (s : Bytes) → Lacks b'$' s → search s ≡ none
unfolding search
search_plain [] h = refl
search_plain (c ∷ s) (h, hs) = rw (search, variable_at-none c s h, search_plain s hs)

search_behind : (s t : Bytes) → Lacks b'$' s → search (s ++ t) ≡ search t
unfolding search
search_behind [] t h = refl
search_behind (c ∷ s) t (h, hs) = rw (search, variable_at-none c (s ++ t) h, search_behind s t hs)

module _ (env : Environment) (value : Bytes) where
  replace_plain : (s : Bytes) → Lacks b'$' s → replace_from env value 0 s ≡ s
  unfolding replace_from
  replace_plain [] h = refl
  replace_plain (c ∷ s) (h, hs) = rw (replace_from, variable_at-none c s h, replace_plain s hs)

  replace_behind :
      (s t : Bytes)
      → Lacks b'$' s
      → replace_from env value 0 (s ++ t) ≡ s ++ replace_from env value 0 t
  unfolding replace_from
  replace_behind [] t h = refl
  replace_behind (c ∷ s) t (h, hs) =
      rw (replace_from, variable_at-none c (s ++ t) h, replace_behind s t hs)

  -- The rest of a match is passed over.
  replace_skip :
      (s t : Bytes) (k : ℕ)
      → k ≡ length s
      → replace_from env value k (s ++ t) ≡ replace_from env value 0 t
  unfolding replace_from
  replace_skip [] t zero h = refl
  replace_skip [] t (suc k) h = absurd (omega (arith, h))
  replace_skip (c ∷ s) t zero h = absurd (omega (arith, h))
  replace_skip (c ∷ s) t (suc k) h = replace_skip s t k (omega (arith, h))

abbrev dollar : Bytes → Bytes → Bytes
dollar name behind = b'$' ∷ b'{' ∷ name ++ b'}' ∷ behind

braced-append : (name behind : Bytes) → braced name ++ behind ≡ dollar name behind
braced-append name behind = ap (λ s. b'$' ∷ b'{' ∷ s) (append_assoc name (b'}' ∷ []) behind)

variable_at-dollar :
    (name behind : Bytes)
    → Lacks b'}' name
    → Lacks b'\n' name
    → Lacks b'\r' name
    → variable_at (dollar name behind) ≡ some name
unfolding variable_at
variable_at-dollar name behind c n r = up_to_brace_lem name behind c n r

search-dollar :
    (name behind : Bytes)
    → variable_at (dollar name behind) ≡ some name
    → search (dollar name behind) ≡ some name
unfolding search
search-dollar name behind found = rw (search, found)

replace-dollar :
    (env : Environment) (value name behind : Bytes)
    → variable_at (dollar name behind) ≡ some name
    → replace_from env value 0 (dollar name behind)
      ≡ env.expand value (braced name) ++ replace_from env value 0 behind
unfolding replace_from
replace-dollar env value name behind found =
    rw (replace_from, found)
      (ap (λ s. env.expand value (braced name) ++ s)
        (ap (λ s. replace_from env value (length name + 2) s)
            (sym (append_assoc (b'{' ∷ name) (b'}' ∷ []) behind))
          ∙ replace_skip env value (b'{' ∷ name ++ b'}' ∷ []) behind (length name + 2)
              (omega (arith, length-append name (b'}' ∷ [])))))

module _ (env : Environment) where
  -- A configured text without a dollar sign stays as it is.
  pub replace_env_variable-plain : (s : Bytes) → Lacks b'$' s → replace_env_variable env s ≡ ok s
  unfolding replace_env_variable
  replace_env_variable-plain s h = rw (replace_env_variable, search_plain s h)

  -- A configured text that names one variable, in braces behind a dollar sign, has the value of the
  -- variable in its place: if the rest of the text and the value have no dollar sign, the name has
  -- neither a closing brace nor an end of line, and the variable is set.
  pub replace_env_variable-braced :
      IsEnvironment env
      → (before name value behind : Bytes) → Lacks b'$' before
      → Lacks b'$' behind
      → Lacks b'$' value
      → Lacks b'}' name
      → Lacks b'\n' name
      → Lacks b'\r' name
      → env.getenv name ≡ some value
      → replace_env_variable env (before ++ (braced name ++ behind))
        ≡ ok (before ++ (value ++ behind))
  unfolding replace_env_variable
  replace_env_variable-braced law before name value behind h1 h2 h3 c n r there =
      let found = variable_at-dollar name behind c n r in
      ap (λ text. replace_env_variable env (before ++ text)) (braced-append name behind)
      ∙ rw (
        replace_env_variable,
        search_behind before (dollar name behind) h1,
        search-dollar name behind found,
        there,
        replace_behind env value before (dollar name behind) h1,
        replace-dollar env value name behind found,
        law.plain value (braced name) h3,
        replace_plain env value behind h2,
      )
