-- ===== src/Iris/Setup.antt =====
-- The constructor of `LibHandler`: for the libraries with servers it loads the configuration, and
-- leaves the storage that it was asked for as the only one.
use symbios.Base.{ℕ, Option, none, List, [], ◌∷◌, Bool, true, false, ◌==◌, if◌then◌else◌}
use symbios.Base.Result.{Result, ok, ◌>>=◌}
use symbios.Base.Text.{Bytes}
use symbios.Objects.{StorageSolution}
use symbios.Distribution.{random_policy}
use symbios.Configuration.{Configuration, Document}
use symbios.Configuration.Variables.{Environment}
use symbios.Configuration.Loading.{BasketConfiguration, Libraries, configure_symbios_client}
use symbios.Iris.{IoLib, niobe_lib, symbios_lib}
use symbios.Iris.Handler.{LibHandler}

-- `STORAGE_SOLUTIONS[i]`, which is a null pointer for an index that is not there.
unfoldable pub solution_at : List (ℕ × Option StorageSolution) → ℕ → Option StorageSolution
solution_at [] i = none
solution_at ((j, s) ∷ solutions) i =
    let rest = solution_at solutions i in if j == i then s else rest

-- The storage of an index as the only one, under index 0, and the random policy.
unfoldable pub only_solution : ℕ → Configuration → Configuration
unfolding solution_at
only_solution db_type conf = record conf {
  storage_solutions = (0, solution_at conf.storage_solutions db_type) ∷ [];
  data_distribution_policy = random_policy;
}

abbrev pub has_servers : IoLib → Bool
has_servers symbios_lib = true
has_servers niobe_lib = true
has_servers _ = false

-- `files` is what the parser makes of the file of a name, as for `configure_symbios_client`.
module _ (env : Environment) (libraries : Libraries)
    (files : Bytes → Option (Option Document)) where
  -- `new symbios::Client()` loads the file whose name was set before.
  unfoldable pub set_up :
      ℕ → Bytes → Configuration → BasketConfiguration → Result (Configuration × BasketConfiguration)
  unfolding only_solution
  set_up db_type symbios_conf conf basket =
      configure_symbios_client env libraries (files symbios_conf)
        (record conf { configuration_file = symbios_conf })
        (record basket { backed_file_dir = conf.server_dir })
      >>= λ c. ok (only_solution db_type c.0, c.1)

  unfoldable pub new_handler :
      Bytes
      → IoLib
      → ℕ
      → ℕ
      → Bool
      → Bytes
      → Configuration
      → BasketConfiguration
      → Result (LibHandler × Configuration × BasketConfiguration)
  unfolding set_up
  new_handler file lib db_type max_obj_size print_p symbios_conf conf basket =
      let h : LibHandler = record {
        lib_type = lib;
        db_type = db_type;
        max_obj_size = max_obj_size;
        print_p = print_p;
        file = file;
      } in
      if has_servers lib
      then (set_up db_type symbios_conf conf basket >>= λ c. ok (h, c.0, c.1))
      else ok (h, conf, basket)
