-- ===== src/Engine/Policies.antt =====
-- What the policies select, and what a command line that is accepted has.
use symbios.Base.{
  ℕ, zero, suc, sym, ◌%◌, ◌≤◌, ◌<◌, ◌≡◌, ◌∙◌, refl, ap, Option, none, some, List, [], ◌∷◌, arith,
  get_elem?, if◌then◌else◌,
}
use symbios.Base.Result.{Result, ok, err, aborted, out_of_bounds, ◌>>=◌}
use symbios.Base.Text.{Bytes, codes}
use symbios.Engine.{
  Arguments, Key, missing_file, parse_opt, parse_line, next_opt, parsed, Parsed, unknown_key,
  target_stor_list, policy_random, select_target, row_of, target_for,
}

row_inside : (n : ℕ) → n < 4 → (row : Bytes) × (row_of (get_elem? target_stor_list n) ≡ ok row)
unfolding row_of
row_inside zero h = (codes "PFS1", refl)
row_inside (suc zero) h = (codes "PFS2", refl)
row_inside (suc (suc zero)) h = (codes "REDIS", refl)
row_inside (suc (suc (suc zero))) h = (codes "MONGO", refl)
row_inside (suc (suc (suc (suc n)))) h = absurd (omega arith)

row_outside : (n : ℕ) → 4 ≤ n → row_of (get_elem? target_stor_list n) ≡ err out_of_bounds
unfolding row_of
row_outside zero h = absurd (omega arith)
row_outside (suc zero) h = absurd (omega arith)
row_outside (suc (suc zero)) h = absurd (omega arith)
row_outside (suc (suc (suc zero))) h = absurd (omega arith)
row_outside (suc (suc (suc (suc n)))) h = refl

-- With an empty target and the policy RANDOM, only 4 of the 128 remainders of the random number name
-- a row of the list of targets; with every other one the access is outside the list.
pub target_for-random :
    (random : ℕ)
    → (random % 128 < 4 → (row : Bytes) × (target_for [] (codes "RANDOM") random ≡ ok row))
      × (4 ≤ random % 128 → target_for [] (codes "RANDOM") random ≡ err out_of_bounds)
unfolding target_for select_target policy_random
target_for-random random = (row_inside (random % 128), row_outside (random % 128))

abbrev HasFiles : Arguments → Type 0
HasFiles b = (trace hosts : Bytes) × (b.trace_file ≡ some trace) × (b.redis_hosts ≡ some hosts)

end_files :
    (usage : ℕ) (t h : Option Bytes) (a b : Arguments)
    → a.trace_file ≡ t
    → a.redis_hosts ≡ h
    → ((if missing_file t h then err (aborted 200) else ok (parsed a)) >>= λ p. next_opt p usage)
      ≡ ok b
    → HasFiles b
unfolding missing_file next_opt
end_files usage none h a b et eh e = cc
end_files usage (some t) none a b et eh e = cc
end_files usage (some t) (some h) a b et eh e =
    let same : a ≡ b = cc e in
    (t, h, ap (λ c. c.trace_file) (sym same) ∙ et, ap (λ c. c.redis_hosts) (sym same) ∙ eh)

rest_runs :
    (usage : ℕ) (r : Result Parsed) (rest : List (Key × Bytes)) (b : Arguments)
    → (r >>= λ p. next_opt p usage >>= parse_line usage rest) ≡ ok b
    → (a : Arguments) × (parse_line usage rest a ≡ ok b)
unfolding next_opt
rest_runs usage (err e) rest b h = cc
rest_runs usage (ok unknown_key) rest b h = cc
rest_runs usage (ok (parsed a)) rest b h = (a, h)

-- A command line that is accepted leaves a trace file and a file of Redis hosts in the arguments.
pub parse_line-files :
    (usage : ℕ) (line : List (Key × Bytes)) (a b : Arguments)
    → parse_line usage line a ≡ ok b
    → (trace hosts : Bytes) × (b.trace_file ≡ some trace) × (b.redis_hosts ≡ some hosts)
unfolding parse_line parse_opt
parse_line-files usage [] a b h = end_files usage a.trace_file a.redis_hosts a b refl refl h
parse_line-files usage ((key, arg) ∷ rest) a b h =
    let (c, runs) = rest_runs usage (parse_opt key arg a) rest b h in
    parse_line-files usage rest c b runs
