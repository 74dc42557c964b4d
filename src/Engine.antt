-- ===== src/Engine.antt =====
-- old/internal_component/engine/test_engine.c: the trace replayer. This file has its command line and
-- its policies.
pub mod Policies
pub mod Trace
pub mod Replay
pub mod Setup
pub mod Hosts
use symbios.Base.{
  ℕ, zero, suc, ◌+◌, ◌-◌, ◌*◌, ◌%◌, ◌<◌, ◌≤◌, Bool, true, false, ◌||◌, Option, none, some, List, [],
  ◌∷◌, ◌++◌, ltb, leb, ◌==◌, if◌then◌else◌, length, get_elem?,
}
use symbios.Base.Int.{ℤ, pos, negsuc}
use symbios.Base.Result.{Result, ok, err, aborted, uninitialised, out_of_bounds, ◌>>=◌}
use symbios.Base.Text.{Bytes, codes, atoi}
use symbios.Collection.{bytes_eq}

-- `struct arguments`. A NULL text is `none`.
pub record Arguments : Type 0 where
  pub req_size : ℤ
  pub count : ℤ
  pub policy : Bytes
  pub target : Bytes
  pub trace_file : Option Bytes
  pub redis_hosts : Option Bytes

-- What `argp_parse` calls `parse_opt` with: an option letter, an argument that is no option (with the
-- number of those before it), or the end.
pub data Key : Type 0 where
  option_key : ℕ → Key
  key_arg : ℕ → Key
  key_end : Key

-- `ARGP_ERR_UNKNOWN`, or 0 with the arguments.
pub data Parsed : Type 0 where
  unknown_key : Parsed
  parsed : Arguments → Parsed

unfoldable pub parse_option : ℕ → Bytes → Arguments → Parsed
parse_option key arg a =
    if key == b's'
    then parsed (record a { req_size = atoi arg })
    else if key == b'c'
    then parsed (record a { count = atoi arg })
    else if key == b'p'
    then parsed (record a { policy = arg })
    else if key == b't'
    then parsed (record a { target = arg })
    else if key == b'f'
    then parsed (record a { trace_file = some arg })
    else if key == b'r'
    then parsed (record a { redis_hosts = some arg })
    else unknown_key

-- `trace_file == NULL || redis_hosts == NULL`
unfoldable pub missing_file : Option Bytes → Option Bytes → Bool
missing_file (some _) (some _) = false
missing_file _ _ = true

-- `MPI_Abort` with 200 stands for both it and `argp_usage` in front of it: the program ends.
unfoldable pub parse_opt : Key → Bytes → Arguments → Result Parsed
unfolding parse_option missing_file
parse_opt (option_key key) arg a = ok (parse_option key arg a)
parse_opt (key_arg number) arg a = if leb 8 number then err (aborted 200) else ok (parsed a)
parse_opt key_end arg a =
    if missing_file a.trace_file a.redis_hosts then err (aborted 200) else ok (parsed a)

-- The calls of `parse_opt` for a command line, in turn; a letter that is not known ends `argp_parse`
-- with the exit status `usage`.
unfoldable pub next_opt : Parsed → ℕ → Result Arguments
next_opt unknown_key usage = err (aborted usage)
next_opt (parsed a) usage = ok a

unfoldable pub parse_line : ℕ → List (Key × Bytes) → Arguments → Result Arguments
unfolding next_opt
parse_line usage [] a = parse_opt key_end [] a >>= λ p. next_opt p usage
parse_line usage ((key, arg) ∷ rest) a =
    parse_opt key arg a >>= λ p. next_opt p usage >>= parse_line usage rest

-- `enum target`
pub data Target : Type 0 where
  pfs1 pfs2 redis mongo : Target

unfoldable pub number_of : Target → ℕ
number_of pfs1 = 0
number_of pfs2 = 1
number_of redis = 2
number_of mongo = 3

abbrev pub target_stor_list : List Bytes
target_stor_list = codes "PFS1" ∷ codes "PFS2" ∷ codes "REDIS" ∷ codes "MONGO" ∷ []

-- `sizeof(target_stor_list)`: four rows of 32 bytes.
abbrev pub target_stor_list_size : ℕ
target_stor_list_size = 4 * 32

unfoldable pub policy_random : ℕ → ℕ
policy_random random = random % target_stor_list_size

unfoldable pub policy_roundrobin : ℕ → ℕ
policy_roundrobin random = random % target_stor_list_size

unfoldable pub policy_heuristic : ℕ
unfolding number_of
policy_heuristic = number_of pfs1

unfoldable pub policy_model : ℕ
unfolding number_of
policy_model = number_of pfs1

-- With any other policy the variable is never set.
unfoldable pub select_target : Bytes → ℕ → Result ℕ
unfolding policy_random policy_roundrobin policy_heuristic policy_model bytes_eq
select_target policy random =
    if bytes_eq policy (codes "RANDOM")
    then ok (policy_random random)
    else if bytes_eq policy (codes "ROUND-ROBIN")
    then ok (policy_roundrobin random)
    else if bytes_eq policy (codes "HEURISTIC")
    then ok policy_heuristic
    else if bytes_eq policy (codes "MODEL")
    then ok policy_model
    else err uninitialised

unfoldable pub row_of : Option Bytes → Result Bytes
row_of none = err out_of_bounds
row_of (some row) = ok row

-- In `main`: an empty target is replaced by the row of the list that the policy selects.
unfoldable pub target_for : Bytes → Bytes → ℕ → Result Bytes
unfolding row_of
target_for target policy random =
    if bytes_eq target []
    then (select_target policy random >>= λ i. row_of (get_elem? target_stor_list i))
    else ok target
