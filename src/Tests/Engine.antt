-- ===== src/Tests/Engine.antt =====
-- The trace replayer at a small command line and a small trace.
use symbios.Base.{
  ℕ, ◌+◌, ◌%◌, ◌<◌, ◌≤◌, ◌≡◌, refl, Option, none, some, List, [], ◌∷◌, ◌++◌, length, take, drop,
  arith, if◌then◌else◌, ◌==◌,
}
use symbios.Base.Int.{pos, negsuc, pos_part}
use symbios.Base.Result.{ok, err, out_of_bounds}
use symbios.Base.Text.{Bytes, codes, print_ℕ}
use symbios.Engine.{Arguments, Key, option_key, target_for}
use symbios.Engine.Policies
use symbios.Engine.Trace.{TraceRecord, open_op, get_record_count}
use symbios.Engine.Replay.{Stream, Globals, do_io}
use symbios.Engine.Replay.LastRecord
use symbios.Engine.Setup.{Outside}
use symbios.Engine.Hosts.{
  node_entry, gen_node_list_from_hostfile, connect_to_redis_server_with_hostfile,
}
use symbios.Engine.Hosts.Rounds.{host_lines}
use symbios.Engine.Hosts.Lines
use symbios.Tests.Doubles.{list_redis, list_collection}

abbrev start : Arguments
start = record {
  req_size = negsuc 0;
  count = negsuc 0;
  policy = codes "RANDOM";
  target = codes "PFS1";
  trace_file = none;
  redis_hosts = none;
}

abbrev line : List (Key × Bytes)
line = (option_key b'f', codes "t.csv") ∷ (option_key b'r', codes "hosts") ∷ []

abbrev accepted : Arguments
accepted = record start { trace_file = some (codes "t.csv"); redis_hosts = some (codes "hosts") }

target_for-random_example :
    (131 % 128 < 4 → (row : Bytes) × (target_for [] (codes "RANDOM") 131 ≡ ok row))
    × (4 ≤ 131 % 128 → target_for [] (codes "RANDOM") 131 ≡ err out_of_bounds)
target_for-random_example = Policies.target_for-random 131

-- A stream as its bytes and its position; what is written goes to the end.
abbrev list_stream : Stream
list_stream = record {
  State = Bytes × ℕ;
  fseek = λ s offset. some (s.0, pos_part offset);
  fwrite = λ s b. (s.0 ++ b, length (s.0 ++ b));
  fread = λ s n. (take n (drop s.1 s.0), (s.0, s.1 + n));
}

abbrev globals : Globals list_stream list_redis list_collection
globals = record {
  dest_fp1 = some ([], 0);
  dest_fp2 = none;
  cluster = [];
  collection = [];
  buf = codes "AAAAAAAA";
  total_size = 0;
}

abbrev before : TraceRecord
before = record { ops = open_op; size = 0; offset = pos 0 }

do_io-append_example :
    do_io list_stream list_redis list_collection
      (codes "PFS1")
      (some ((codes "WRITE,0,4" ++ (b'\n' ∷ [])) ++ (codes "WRITE,4,4" ++ (b'\n' ∷ []))))
      0
      (λ n. n)
      before
      globals
    ≡ do_io list_stream list_redis list_collection
        (codes "PFS1")
        (some ((codes "WRITE,0,4" ++ (b'\n' ∷ [])) ++ (b'\n' ∷ [])))
        0
        (λ n. n)
        before
        globals
unfolding get_record_count
do_io-append_example =
    LastRecord.do_io-append list_stream list_redis list_collection (codes "PFS1")
      (codes "WRITE,0,4" ++ (b'\n' ∷ [])) (codes "WRITE,4,4" ++ (b'\n' ∷ [])) (b'\n' ∷ []) 0
      (λ n. n) before globals (omega arith) refl refl

abbrev outside : Outside list_stream list_redis list_collection
outside = record {
  pfs1_opens = λ i. some ([], i);
  pfs2_opens = λ i. none;
  redis_connects = none;
  mongo_connects = none;
}

abbrev two_hosts : List Bytes
two_hosts = codes "ares-1" ∷ codes "ares-2" ∷ []

-- Any name is that of a file with two lines, but "short" and "whole".
abbrev host_files : Bytes → Option Bytes
host_files [] = some (host_lines two_hosts)
host_files (c ∷ name) =
    some (host_lines two_hosts ++ (codes "ares-1" ++ (if c == b's' then b'7' else b'\n') ∷ []))

connect-host_lines_example :
    connect_to_redis_server_with_hostfile some host_files (some [])
    ≡ ok (some (codes "ares-1:7000,ares-2:7001"))
unfolding node_entry print_ℕ
connect-host_lines_example =
    Lines.connect-host_lines some host_files [] (codes "ares-1") (codes "ares-2" ∷ []) refl
      ((omega arith, omega arith, omega arith), ((omega arith, omega arith, omega arith), tt))
      (omega arith)

gen_node_list_lost_byte_example :
    gen_node_list_from_hostfile host_files (some (codes "short"))
    ≡ gen_node_list_from_hostfile host_files (some (codes "whole"))
unfolding node_entry print_ℕ
gen_node_list_lost_byte_example =
    Lines.gen_node_list_lost_byte host_files (codes "short") (codes "whole") two_hosts
      (codes "ares-1") b'7' refl refl
      ((omega arith, omega arith, omega arith), ((omega arith, omega arith, omega arith), tt))
      (omega arith, omega arith, omega arith) (omega arith) (omega arith) (omega arith)
