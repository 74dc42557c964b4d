-- ===== src/Tests/Configurations.antt =====
-- The configuration of small documents.
use symbios.Base.{◌≡◌, refl, true, some, [], ◌∷◌, arith}
use symbios.Base.Int.{pos}
use symbios.Base.Result.{ok}
use symbios.Base.Text.{codes}
use symbios.Collection.{bytes_eq}
use symbios.Configuration.{
  Document, Configuration, default_configuration, integer, value, member, config_number,
  config_text, config_policy, config_solutions,
}
use symbios.Configuration.Variables.{replace_env_variable}
use symbios.Configuration.Variables.Replacing
use symbios.Configuration.Servers.{count_servers, plain_lines, from_colon}
use symbios.Configuration.Servers
use symbios.Configuration.Values
use symbios.Configuration.Loading.{Libraries, load_configuration}
use symbios.Tests.Doubles.Programs.{home_environment, home_environment-IsEnvironment}

replace_env_variable-braced_example :
    replace_env_variable home_environment (codes "dir:${HOME}/x") ≡ ok (codes "dir:/home/a/x")
unfolding bytes_eq
replace_env_variable-braced_example =
    Replacing.replace_env_variable-braced home_environment home_environment-IsEnvironment
      (codes "dir:") (codes "HOME") (codes "/home/a") (codes "/x") (omega arith) (omega arith)
      (omega arith) (omega arith) (omega arith) (omega arith) refl

count_servers-plain_lines_example :
    count_servers (some (codes "a:3" ∷ [] ∷ codes "b" ∷ codes "c" ∷ [])) ≡ ok 2
unfolding plain_lines from_colon
count_servers-plain_lines_example =
    Servers.count_servers-plain_lines (codes "a:3" ∷ [] ∷ codes "b" ∷ codes "c" ∷ [])

abbrev document : Document
document = (codes "SYMBIOS_PORT", value (integer (pos 9000))) ∷ []

abbrev libraries : Libraries
libraries = record {
  configure_default_client = λ basket lists. basket;
  configure_default_server = λ basket lists. basket;
  create_directories = λ dir. true;
}

abbrev loaded : Configuration
loaded = record default_configuration { symbios_port = 9000; storage_solutions = [] }

loads :
    load_configuration home_environment libraries (some (some document)) default_configuration
    ≡ ok loaded
unfolding bytes_eq member load_configuration config_text config_number config_solutions
    config_policy
loads = rw (Values.config_number-integer home_environment 9000 8000 (omega arith))
