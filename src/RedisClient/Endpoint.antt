-- ===== src/RedisClient/Endpoint.antt =====
-- src/symbios/io_clients/redis_io.h: which node of the cluster a process connects to.
use native.Mathlib.Nat.{mod-lt}
use symbios.Base.{
  ℕ, zero, suc, ◌%◌, ◌<◌, ◌≡◌, refl, none, some, List, [], ◌∷◌, ◌==◌, ==-false, if◌then◌else◌,
  length, get_elem?, arith,
}
use symbios.Base.Int.{ℤ}
use symbios.Base.Result.{Result, ok, err, out_of_bounds, division_by_zero, ◌>>=◌}
use symbios.Base.Text.{Bytes, atoi}

unfoldable pub attach : ℕ → List Bytes → List Bytes
attach c [] = (c ∷ []) ∷ []
attach c (token ∷ tokens) = (c ∷ token) ∷ tokens

-- `split`: what `getline` yields with the delimiter. A delimiter at the end starts no token.
unfoldable pub split : Bytes → ℕ → List Bytes
unfolding attach
split [] delimiter = []
split (c ∷ s) delimiter =
    let rest = split s delimiter in if c == delimiter then [] ∷ rest else attach c rest

-- `operator[]` of a vector, which nothing checks.
unfoldable pub element : List Bytes → ℕ → Result Bytes
element tokens i = elim (get_elem? tokens i) [ none ↦ err out_of_bounds | some t ↦ ok t ]

-- The host and the port that the constructor takes for a rank.
unfoldable pub connection_options : Bytes → Bytes → ℕ → Result (Bytes × ℤ)
unfolding split element
connection_options end_point port rank =
    let end_points = split end_point b',' in
    if length end_points == 0
    then err division_by_zero
    else (element end_points (rank % length end_points) >>= λ host.
        element (split port b',') (rank % length end_points) >>= λ p. ok (host, atoi p))

get_elem-lt :
    (tokens : List Bytes) (i : ℕ) → i < length tokens → (t : Bytes) × (element tokens i ≡ ok t)
unfolding element
get_elem-lt [] i h = absurd (omega (arith, h))
get_elem-lt (t ∷ tokens) zero h = (t, refl)
get_elem-lt (t ∷ tokens) (suc i) h = get_elem-lt tokens i (omega (arith, h))

-- If there is a host, and as many ports as hosts, every process has a host and a port.
pub connection_options-found :
    (end_point port : Bytes) (rank : ℕ)
    → 0 < length (split end_point b',')
    → length (split port b',') ≡ length (split end_point b',')
    → (host p : Bytes) × (connection_options end_point port rank ≡ ok (host, atoi p))
unfolding connection_options
connection_options-found end_point port rank some_host same =
    let n = length (split end_point b',') in
    let (host, finds) = get_elem-lt (split end_point b',') (rank % n) (mod-lt rank some_host) in
    let (p, finds_port) =
      get_elem-lt (split port b',') (rank % n) (omega (arith, mod-lt rank some_host, same)) in
    (host, p, rw (==-false n 0 (omega (arith, some_host)), finds, finds_port))
