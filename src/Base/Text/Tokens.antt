-- ===== src/Base/Text/Tokens.antt =====
-- What `strtok` returns on a text of fields that each end in the separator.
use symbios.Base.{ℕ, ◌≡◌, ◌≢◌, refl, ap, ◌∙◌, [], ◌∷◌, ◌++◌, some, arith}
use symbios.Base.Text.Defs.{Bytes, Lacks, skip_seps, take_token, first_token, strtok}

skip-field : (sep c : ℕ) (s : Bytes) → c ≢ sep → skip_seps sep (c ∷ s) ≡ c ∷ s
unfolding skip_seps
skip-field sep c s h = ground arith

skip-sep : (sep : ℕ) (s : Bytes) → skip_seps sep (sep ∷ s) ≡ skip_seps sep s
unfolding skip_seps
skip-sep sep s = ground arith

take-field : (sep : ℕ) (f rest : Bytes) → Lacks sep f → take_token sep (f ++ sep ∷ rest) ≡ (f, rest)
unfolding take_token
take-field sep [] rest h = ground arith
take-field sep (c ∷ f) rest h = ground (arith, h.0, take-field sep f rest h.1)

-- A field that is not empty comes back whole, and the next call goes on behind its separator.
pub strtok-field :
    (sep : ℕ) (f rest : Bytes)
    → f ≢ []
    → Lacks sep f
    → strtok sep (f ++ sep ∷ rest) ≡ (some f, rest)
unfolding strtok
strtok-field sep [] rest ne h = absurd (ne refl)
strtok-field sep (c ∷ f) rest ne h =
    ap (first_token sep) (skip-field sep c (f ++ sep ∷ rest) h.0)
    ∙ ap (λ (r : Bytes × Bytes). (some r.0, r.1)) (take-field sep (c ∷ f) rest h)

-- An empty field is passed over: the token comes from behind its separator.
pub strtok-empty : (sep : ℕ) (rest : Bytes) → strtok sep (sep ∷ rest) ≡ strtok sep rest
unfolding strtok
strtok-empty sep rest = ap (first_token sep) (skip-sep sep rest)
