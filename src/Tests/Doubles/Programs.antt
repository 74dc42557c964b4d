-- ===== src/Tests/Doubles/Programs.antt =====
-- What the intercepted calls of a program meet: servers that know one file, and a C library that
-- hands out addresses. And an environment with one variable.
use symbios.Base.{ℕ, ◌+◌, true, none, some, refl, if◌then◌else◌}
use symbios.Base.Int.{pos}
use symbios.Base.Result.{ok}
use symbios.Base.Text.{Bytes, codes}
use symbios.Base.Memory.{slice}
use symbios.Collection.{bytes_eq}
use symbios.Client.{Rpc}
use symbios.Posix.Calls.{Stdio}
use symbios.Configuration.Variables.{Environment, IsEnvironment}

abbrev pub stored_bytes : Bytes
stored_bytes = codes "abcdefghij"

-- Each request draws the next random number. Only "/mnt/a" has a content.
abbrev pub one_file_rpc : Rpc
one_file_rpc = record {
  State = ℕ;
  rand = λ s. (s, s + 1);
  store = λ server s source destination. ok (pos 1, s);
  locate = λ server s source destination.
      ok (record destination {
        buffer = some (slice source.position source.data_size stored_bytes);
      });
  delete = λ server s request. ok (true, s);
  size = λ server s request. ok (if bytes_eq request.id (codes "/mnt/a") then 10 else 0);
}

abbrev pub counting_stdio : Stdio
counting_stdio = record {
  State = ℕ;
  fopen = λ s filename mode. (s, s + 1);
  fmemopen = λ s size mode. (s, s + 1);
  fclose = λ s stream. (pos 0, s);
  fseek = λ s stream offset origin. (pos 0, s);
  fread = λ s block size count stream. (count, block, s);
  fwrite = λ s block size count stream. (count, s);
}

abbrev pub home_environment : Environment
home_environment = record {
  getenv = λ name. if bytes_eq name (codes "HOME") then some (codes "/home/a") else none;
  expand = λ value matched. value;
}

pub home_environment-IsEnvironment : IsEnvironment home_environment
home_environment-IsEnvironment = record { plain = λ value matched h. refl }
