-- ===== src/Tests/Traces.antt =====
-- Traces that are replayed through the servers.
use symbios.Base.{◌≡◌, false, some, none, List, [], ◌∷◌, replicate}
use symbios.Base.Int.{pos}
use symbios.Base.Result.{err, null_pointer, ◌>>=◌}
use symbios.Base.Text.{codes}
use symbios.IoFactory.{get_io_client}
use symbios.Objects.{Io}
use symbios.Iris.{symbios_lib}
use symbios.Iris.Handler.{LibHandler}
use symbios.Iris.Overrun.{shared_io}
use symbios.RedisClient.AsStorage.{redis_storage}
use symbios.Replayer.{
  CLibrary, Replay, Line, fopen_line, write_line, read_line, replay_lines, replay_trace,
}
use symbios.Replayer.Files.{prepare_lines, clean_lines}
use symbios.Replayer.Print.{print_trace, replay_times, replay_trace-print_trace}
use symbios.Replayer.Blank.{blank_line}
use symbios.Tests.Clients.{backends, solutions, first_index}
use symbios.Tests.Doubles.{list_redis}
use symbios.Tests.Doubles.Programs.{one_file_rpc, counting_stdio}

abbrev library : CLibrary
library = record {
  stdio = counting_stdio;
  remove = λ s name. s;
  malloc = λ n. replicate n 0;
  rand = λ n. n;
}

abbrev redis : Io
redis = shared_io (redis_storage list_redis)

abbrev handler : LibHandler
handler = record {
  lib_type = symbios_lib;
  db_type = 1;
  max_obj_size = 4;
  print_p = false;
  file = codes "/mnt/a";
}

abbrev start : Replay redis (get_io_client backends first_index solutions) one_file_rpc 2 library
start = record {
  world = record { storage = []; servers = 0; output = [] };
  files = 0;
  file = none;
  drawn = 0;
}

abbrev trace : List Line
trace =
    record { operation = fopen_line; offset = pos 0; request_size = pos 0 }
    ∷ record { operation = write_line; offset = pos 2; request_size = pos 5 }
    ∷ record { operation = read_line; offset = pos 3; request_size = pos 4 }
    ∷ []

replay_trace-print_trace_example :
    replay_trace redis
      (get_io_client backends first_index solutions)
      one_file_rpc
      2
      library
      handler
      (codes "/mnt/a")
      (pos 0)
      (some (print_trace trace))
      2
      start
    ≡ replay_times redis
        (get_io_client backends first_index solutions)
        one_file_rpc
        2
        library
        handler
        (codes "/mnt/a")
        (pos 0)
        2
        trace
        start
replay_trace-print_trace_example =
    replay_trace-print_trace redis (get_io_client backends first_index solutions) one_file_rpc 2
      library handler (codes "/mnt/a") (pos 0) 2 trace start

blank_line_example :
    (replay_lines redis
        (get_io_client backends first_index solutions)
        one_file_rpc
        2
        library
        handler
        (codes "/mnt/a")
        (pos 0)
        (codes "READ,3,4\n" ∷ codes "\n" ∷ [])
        start
      ≡ replay_lines redis
          (get_io_client backends first_index solutions)
          one_file_rpc
          2
          library
          handler
          (codes "/mnt/a")
          (pos 0)
          (codes "READ,3,4\n" ∷ [])
          start)
    × (prepare_lines redis
          (get_io_client backends first_index solutions)
          one_file_rpc
          2
          library
          handler
          (codes "READ,3,4\n" ∷ codes "\n" ∷ [])
          (pos 0)
          start
        ≡ (prepare_lines redis
              (get_io_client backends first_index solutions)
              one_file_rpc
              2
              library
              handler
              (codes "READ,3,4\n" ∷ [])
              (pos 0)
              start
            >>= λ p. err null_pointer))
    × (clean_lines redis
          (get_io_client backends first_index solutions)
          one_file_rpc
          2
          library
          handler
          (codes "READ,3,4\n" ∷ codes "\n" ∷ [])
          start
        ≡ (clean_lines redis
              (get_io_client backends first_index solutions)
              one_file_rpc
              2
              library
              handler
              (codes "READ,3,4\n" ∷ [])
              start
            >>= λ p. err null_pointer))
blank_line_example =
    blank_line redis (get_io_client backends first_index solutions) one_file_rpc 2 library handler
      (codes "/mnt/a") (pos 0) (codes "READ,3,4\n" ∷ []) [] (pos 0) start
