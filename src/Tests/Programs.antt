-- ===== src/Tests/Programs.antt =====
-- A program whose stdio calls are intercepted.
use symbios.Base.{ℕ, ◌≡◌, refl, Option, some, List, [], ◌∷◌, arith}
use symbios.Base.Int.{pos}
use symbios.Base.Result.{ok, ◌>>=◌}
use symbios.Base.Text.{codes}
use symbios.Base.Memory.{load, store}
use symbios.Collection.{bytes_eq}
use symbios.Objects.{StorageSolution, file_ss, redis_ss}
use symbios.Client.{size_request, pick_server, locate_request, copy_reply}
use symbios.Posix.{PosixStat, find_handle, erase, assign_by, insert_or_assign, truncate}
use symbios.Posix.Calls.{Program, starts_with, mounted, minus_one, fopen, fseek, fread, fwrite}
use symbios.Posix.Behaviour
use symbios.Tests.Doubles.Programs.{one_file_rpc, counting_stdio}

abbrev open_stat : PosixStat
open_stat = record {
  filename = codes "/mnt/a";
  file_pointer = 0;
  file_size = 10;
  mode = codes "r+";
  storage_index = 1;
}

-- One open file of ten bytes, and another one.
abbrev program : Program one_file_rpc counting_stdio
program = record {
  handles = (5, open_stat) ∷ (6, record open_stat { file_pointer = 4 }) ∷ [];
  servers = 0;
  files = 7;
}

abbrev mounts : List (ℕ × Option StorageSolution)
mounts = (0, some (redis_ss (codes "h") (codes "1"))) ∷ (1, some (file_ss (codes "/mnt"))) ∷ []

-- A file that is not there yet is opened to be written.
fopen-fwrite_example :
    (fopen one_file_rpc counting_stdio 2
        (codes "/etc/conf")
        mounts
        program
        (codes "/mnt/b")
        (codes "w")
      >>= λ r. fwrite one_file_rpc counting_stdio 2 r.1 (codes "xyz") 1 3 r.0)
    ≡ ok (
      minus_one,
      Behaviour.opened_program one_file_rpc counting_stdio 2 program
          (codes "/mnt/b")
          (codes "w")
          1
          0
          1,
    )
unfolding starts_with mounted size_request pick_server bytes_eq truncate
fopen-fwrite_example =
    Behaviour.fopen-fwrite one_file_rpc counting_stdio 2 (codes "/etc/conf") mounts program
      (codes "/mnt/b") (codes "w") 1 1 1 (codes "xyz") 1 3 refl refl refl refl (omega arith)

fseek-fread_example :
    (fread one_file_rpc counting_stdio 2
        (fseek one_file_rpc counting_stdio 2 program 5 (pos 2) 0).1
        (codes "......")
        1
        4
        5
      ≡ ok (
        4,
        codes "cdef..",
        Behaviour.read_program one_file_rpc counting_stdio 2 program 5 open_stat 2 1,
      ))
    × (fread one_file_rpc counting_stdio 2
          (Behaviour.read_program one_file_rpc counting_stdio 2 program 5 open_stat 2 1)
          (codes "-----")
          1
          4
          5
        ≡ ok (
          4,
          codes "cdef-",
          Behaviour.read_program one_file_rpc counting_stdio 2 program 5 open_stat 2 2,
        ))
unfolding find_handle bytes_eq locate_request pick_server copy_reply load store insert_or_assign
    assign_by erase
fseek-fread_example =
    Behaviour.fseek-fread one_file_rpc counting_stdio 2 program (codes "......") (codes "-----") 2 4
      5 open_stat _ _ 1 2 (codes "cdef") (codes "cdef") refl refl (omega arith) (omega arith)
      (omega arith) (omega arith) refl (refl, refl, omega arith) refl (refl, refl, omega arith)
