-- ===== src/Configuration.antt =====
-- include/symbios/common/configuration_manager.h: the configuration of the clients and servers. The
-- JSON document, as rapidjson has parsed it, is an argument.
pub mod Variables
pub mod Values
pub mod Servers
pub mod Loading
use symbios.Base.{
  ℕ, suc, ◌+◌, ◌*◌, ◌%◌, ◌^◌, Bool, true, false, ◌&&◌, Option, none, some, List, [], ◌∷◌, ltb, leb,
  ◌==◌, if◌then◌else◌,
}
use Prim.Native.String.{String}
use symbios.Base.Int.{ℤ, pos, negsuc, size_of_int}
use symbios.Base.Result.{Result, ok, err, aborted, foreign, ◌>>=◌}
use symbios.Base.Text.{Bytes, codes, atoi, print_ℤ}
use symbios.Collection.{bytes_eq}
use symbios.Objects.{StorageSolution, file_ss, redis_ss, mongo_ss}
use symbios.Distribution.{
  Policy, random_policy, round_robin_policy, heuristics_policy, dynamic_programming_policy,
}
use symbios.Configuration.Variables.{Environment, replace_env_variable}

-- A value of the document, as far as the program tells values apart; `other` is of another type.
pub data Value : Type 0 where
  text : Bytes → Value
  integer : ℤ → Value
  other : Value

abbrev pub Object : Type 0
Object = List (Bytes × Value)

-- A member of the document: a value, or an array of objects.
pub data Member : Type 0 where
  value : Value → Member
  array : List Object → Member

abbrev pub Document : Type 0
Document = List (Bytes × Member)

unfoldable pub member {ℓ} : {A : Type ℓ} → List (Bytes × A) → Bytes → Option A
member [] key = none
member ((k, v) ∷ o) key = let rest = member o key in if bytes_eq k key then some v else rest

-- A failed `assert`.
abbrev pub assertion_failed : ℕ
assertion_failed = 134

-- `IsInt`: the number is an `int`.
unfoldable pub as_int : Value → Result ℤ
as_int (integer (pos n)) = if ltb n (2 ^ 31) then ok (pos n) else err (aborted assertion_failed)
as_int (integer (negsuc n)) =
    if ltb n (2 ^ 31) then ok (negsuc n) else err (aborted assertion_failed)
as_int _ = err (aborted assertion_failed)

unfoldable pub as_string : Value → Result Bytes
as_string (text s) = ok s
as_string _ = err (aborted assertion_failed)

unfoldable pub as_value : Member → Result Value
as_value (value v) = ok v
as_value (array os) = err (aborted assertion_failed)

-- `config` of a policy. A name that is none leaves the policy as it is.
unfoldable pub policy_named : Bytes → Policy → Policy
policy_named name policy =
    if bytes_eq name (codes "RANDOM_POLICY")
    then random_policy
    else if bytes_eq name (codes "ROUND_ROBIN_POLICY")
    then round_robin_policy
    else if bytes_eq name (codes "HEURISTICS_POLICY")
    then heuristics_policy
    else if bytes_eq name (codes "DYNAMIC_PROGRAMMING_POLICY")
    then dynamic_programming_policy
    else policy

unfoldable pub config_policy : Document → Bytes → Policy → Result Policy
unfolding policy_named
config_policy doc key policy = elim (member doc key) [
  | none ↦ ok policy
  | some m ↦ as_value m >>= as_string >>= λ name. ok (policy_named name policy)
]

-- `insert` of the map: an index that is there keeps its solution.
unfoldable pub insert_solution :
    List (ℕ × Option StorageSolution)
    → ℕ
    → Option StorageSolution
    → List (ℕ × Option StorageSolution)
insert_solution [] i ss = (i, ss) ∷ []
insert_solution ((j, old) ∷ solutions) i ss =
    let rest = insert_solution solutions i ss in
    if j == i then (j, old) ∷ solutions else (j, old) ∷ rest

module _ (env : Environment) where
  -- `config` of a `uint16_t`.
  unfoldable pub config_number : Option Member → ℕ → Result ℕ
  config_number none variable = ok variable
  config_number (some m) variable = as_value m >>= as_int >>= λ z.
      replace_env_variable env (print_ℤ z) >>= λ s. ok (size_of_int (atoi s) % 2 ^ 16)

  -- `config` of a text, from a value.
  unfoldable pub config_value : Option Value → Bytes → Result Bytes
  config_value none variable = ok variable
  config_value (some v) variable = as_string v >>= replace_env_variable env

  -- `config` of a text of the document.
  unfoldable pub config_text : Option Member → Bytes → Result Bytes
  unfolding config_value
  config_text none variable = ok variable
  config_text (some m) variable = as_value m >>= λ v. config_value (some v) variable

  -- `config(results[i], …)`, into a text that is empty before.
  unfoldable pub field : Object → String → Result Bytes
  unfolding config_value
  field o key = config_value (member o (codes key)) []

  -- An element of the array by its TYPE, which must be there: a type that is none gives null.
  unfoldable pub solution_of : Object → Option Value → Result (Option StorageSolution)
  unfolding field
  solution_of o none = err (aborted assertion_failed)
  solution_of o (some (integer z)) = ok none
  solution_of o (some other) = ok none
  solution_of o (some (text kind)) =
      if bytes_eq kind (codes "FILE_IO")
      then (field o "MOUNT" >>= λ mount. ok (some (file_ss mount)))
      else if bytes_eq kind (codes "REDIS_IO")
      then (field o "IP" >>= λ ip. field o "PORT" >>= λ port. ok (some (redis_ss ip port)))
      else if bytes_eq kind (codes "MONGO_IO")
      then (field o "IP" >>= λ ip. field o "DATABASE" >>= λ database.
          field o "COLLECTION" >>= λ collection. ok (some (mongo_ss ip database collection)))
      else ok none

  -- The loop over the array, from an index on.
  unfoldable pub add_solutions :
      List Object
      → ℕ
      → List (ℕ × Option StorageSolution)
      → Result (List (ℕ × Option StorageSolution))
  unfolding insert_solution solution_of
  add_solutions [] i solutions = ok solutions
  add_solutions (o ∷ os) i solutions = solution_of o (member o (codes "TYPE")) >>= λ ss.
      add_solutions os (suc i) (insert_solution solutions (i % 2 ^ 16) ss)

  -- `config` of the solutions. The map is emptied, be the member there or not.
  unfoldable pub config_solutions : Option Member → Result (List (ℕ × Option StorageSolution))
  unfolding add_solutions
  config_solutions none = ok []
  config_solutions (some (value v)) = err (aborted assertion_failed)
  config_solutions (some (array os)) = add_solutions os 0 []

-- `ConfigurationManager`
pub record Configuration : Type 0 where
  pub server_lists : Bytes
  pub client_lists : Bytes
  pub symbios_port : ℕ
  pub server_rpc_threads : ℕ
  pub server_dir : Bytes
  pub configuration_file : Bytes
  pub server_count : ℕ
  pub random_seed : ℕ
  pub max_obj_size : ℕ
  pub storage_solutions : List (ℕ × Option StorageSolution)
  pub data_distribution_policy : Policy

-- `ConfigurationManager()`
abbrev pub default_configuration : Configuration
default_configuration = record {
  server_lists = codes "/home/user/symbios/conf/server_lists/single_node_symbios_server";
  client_lists = codes "/home/user/symbios/conf/server_lists/single_node_symbios_client";
  symbios_port = 8000;
  server_rpc_threads = 4;
  server_dir = codes "/dev/shm/hari/single_node_symbios_server";
  configuration_file = codes "/home/user/symbios/conf/base_symbios.conf";
  server_count = 1;
  random_seed = 100;
  max_obj_size = 2 * 1024 * 1024;
  storage_solutions =
      (0, some (file_ss (codes "./")))
      ∷ (1, some (redis_ss (codes "127.0.0.1") (codes "6379")))
      ∷ (2, some (mongo_ss (codes "mongodb://localhost:27017") (codes "mydb") (codes "test")))
      ∷ [];
  data_distribution_policy = random_policy;
}
