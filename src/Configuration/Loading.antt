-- ===== src/Configuration/Loading.antt =====
-- include/symbios/common/configuration_manager.h: how a client and a server load the configuration.
use mathlib.Core.Path.{subst}
use symbios.Base.{
  ℕ, ◌*◌, ◌%◌, ◌^◌, ◌≡◌, refl, ap, Bool, true, false, Option, none, some, List, [], if◌then◌else◌,
}
use symbios.Base.Result.{Result, ok, err, aborted, foreign, ◌>>=◌}
use symbios.Base.Text.{Bytes, codes}
use symbios.Objects.{StorageSolution}
use symbios.Distribution.{Policy}
use symbios.Configuration.Variables.{Environment}
use symbios.Configuration.{
  Document, Configuration, member, config_text, config_number, config_solutions, config_policy,
}

-- `BASKET_CONF`, as far as it is set and read here.
pub record BasketConfiguration : Type 0 where
  pub rpc_port : ℕ
  pub rpc_threads : ℕ
  pub memory_allocated : ℕ
  pub backed_file_dir : Bytes
  pub num_servers : ℕ

-- Basket's own configuration from a list of servers, and `create_directories` of Boost, which says
-- whether it was done or threw.
pub record Libraries : Type 0 where
  pub configure_default_client : BasketConfiguration → Bytes → BasketConfiguration
  pub configure_default_server : BasketConfiguration → Bytes → BasketConfiguration
  pub create_directories : Bytes → Bool

module _ (env : Environment) (libraries : Libraries) where
  -- `LoadConfiguration`. The file may not be there, and what is in it may not be an object.
  unfoldable pub load_configuration :
      Option (Option Document) → Configuration → Result Configuration
  load_configuration none conf = err (aborted 1)
  load_configuration (some none) conf = err (aborted 1)
  load_configuration (some (some doc)) conf =
      config_text env (member doc (codes "SERVER_LISTS")) conf.server_lists >>= λ server_lists.
      config_text env (member doc (codes "CLIENT_LISTS")) conf.client_lists >>= λ client_lists.
      config_number env (member doc (codes "SYMBIOS_PORT")) conf.symbios_port >>= λ port.
      config_number env (member doc (codes "SERVER_RPC_THREADS")) conf.server_rpc_threads
      >>= λ threads.
          config_text env (member doc (codes "SERVER_DIR")) conf.server_dir >>= λ server_dir.
          config_number env (member doc (codes "RANDOM_SEED")) conf.random_seed >>= λ seed.
          config_solutions env (member doc (codes "STORAGE_SOLUTIONS")) >>= λ solutions.
          config_policy doc (codes "DATA_DISTRIBUTION_POLICY") conf.data_distribution_policy
          >>= λ policy.
              if libraries.create_directories server_dir
              then ok (record conf {
                server_lists = server_lists;
                client_lists = client_lists;
                symbios_port = port;
                server_rpc_threads = threads;
                server_dir = server_dir;
                random_seed = seed;
                storage_solutions = solutions;
                data_distribution_policy = policy;
              })
              else err foreign

  -- `ConfigureSymbiosClient`
  unfoldable pub configure_symbios_client :
      Option (Option Document)
      → Configuration
      → BasketConfiguration
      → Result (Configuration × BasketConfiguration)
  unfolding load_configuration
  configure_symbios_client file conf basket = load_configuration file conf >>= λ conf.
      let basket = libraries.configure_default_client basket conf.server_lists in
      ok (conf, record basket { rpc_port = conf.symbios_port })

  -- `ConfigureSymbiosServer`
  unfoldable pub configure_symbios_server :
      Option (Option Document)
      → Configuration
      → BasketConfiguration
      → Result (Configuration × BasketConfiguration)
  unfolding load_configuration
  configure_symbios_server file conf basket = load_configuration file conf >>= λ conf.
      let basket =
        libraries.configure_default_server
          (record basket {
            rpc_threads = conf.server_rpc_threads;
            memory_allocated = 1024 * 1024;
            backed_file_dir = conf.server_dir;
          })
          conf.server_lists in
      ok (
        record conf { server_count = basket.num_servers % 2 ^ 16 },
        record basket { rpc_port = conf.symbios_port },
      )

  -- A loading that succeeds, of a document without a member STORAGE_SOLUTIONS, leaves no storage at
  -- all, whatever the solutions were before; the largest size of an object, the number of servers
  -- and the name of the configuration file are not configured, and stay.
  pub load_configuration-no_solutions :
      (doc : Document) (conf loaded : Configuration)
      → member doc (codes "STORAGE_SOLUTIONS") ≡ none
      → load_configuration (some (some doc)) conf ≡ ok loaded
      → (loaded.storage_solutions ≡ [])
        × (loaded.max_obj_size ≡ conf.max_obj_size)
        × (loaded.server_count ≡ conf.server_count)
        × (loaded.configuration_file ≡ conf.configuration_file)
  unfolding load_configuration config_solutions
  load_configuration-no_solutions doc conf loaded none_there loads =
      all (config_text env (member doc (codes "SERVER_LISTS")) conf.server_lists)
        (config_text env (member doc (codes "CLIENT_LISTS")) conf.client_lists)
        (config_number env (member doc (codes "SYMBIOS_PORT")) conf.symbios_port)
        (config_number env (member doc (codes "SERVER_RPC_THREADS")) conf.server_rpc_threads)
        (config_text env (member doc (codes "SERVER_DIR")) conf.server_dir)
        (config_number env (member doc (codes "RANDOM_SEED")) conf.random_seed)
        (config_solutions env (member doc (codes "STORAGE_SOLUTIONS")))
        (config_policy doc (codes "DATA_DISTRIBUTION_POLICY") conf.data_distribution_policy)
        (ap (config_solutions env) none_there) loads
    where
      Kept : Configuration → Type 0
      Kept c =
          (c.storage_solutions ≡ [])
          × (c.max_obj_size ≡ conf.max_obj_size)
          × (c.server_count ≡ conf.server_count)
          × (c.configuration_file ≡ conf.configuration_file)

      set :
          Bytes
          → Bytes
          → ℕ
          → ℕ
          → Bytes
          → ℕ
          → List (ℕ × Option StorageSolution)
          → Policy
          → Configuration
      set lists clients port threads dir seed solutions policy = record conf {
        server_lists = lists;
        client_lists = clients;
        symbios_port = port;
        server_rpc_threads = threads;
        server_dir = dir;
        random_seed = seed;
        storage_solutions = solutions;
        data_distribution_policy = policy;
      }

      the_same : {c d : Configuration} → ok c ≡ ok d → c ≡ d
      the_same e = cc e

      made :
          (b : Bool) (c : Configuration)
          → Kept c
          → (if b then ok c else err foreign) ≡ ok loaded
          → Kept loaded
      made true c kept ends = subst Kept (the_same ends) kept
      made false c kept ends = cc

      all :
          (r1 r2 : Result Bytes) (r3 r4 : Result ℕ) (r5 : Result Bytes) (r6 : Result ℕ)
          (r7 : Result (List (ℕ × Option StorageSolution))) (r8 : Result Policy)
          → r7 ≡ ok []
          → (r1 >>= λ lists. r2 >>= λ clients. r3 >>= λ port. r4 >>= λ threads. r5 >>= λ dir.
              r6 >>= λ seed. r7 >>= λ solutions. r8 >>= λ policy.
              if libraries.create_directories dir
              then ok (set lists clients port threads dir seed solutions policy)
              else err foreign)
            ≡ ok loaded
          → Kept loaded
      all (ok x1) (ok x2) (ok x3) (ok x4) (ok x5) (ok x6) (ok x7) (ok x8) empty ends =
          made (libraries.create_directories x5) (set x1 x2 x3 x4 x5 x6 x7 x8)
            (cc, refl, refl, refl) ends
      all (err e) r2 r3 r4 r5 r6 r7 r8 empty ends = cc
      all (ok _) (err e) r3 r4 r5 r6 r7 r8 empty ends = cc
      all (ok _) (ok _) (err e) r4 r5 r6 r7 r8 empty ends = cc
      all (ok _) (ok _) (ok _) (err e) r5 r6 r7 r8 empty ends = cc
      all (ok _) (ok _) (ok _) (ok _) (err e) r6 r7 r8 empty ends = cc
      all (ok _) (ok _) (ok _) (ok _) (ok _) (err e) r7 r8 empty ends = cc
      all (ok _) (ok _) (ok _) (ok _) (ok _) (ok _) (err e) r8 empty ends = cc
      all (ok _) (ok _) (ok _) (ok _) (ok _) (ok _) (ok _) (err e) empty ends = cc
