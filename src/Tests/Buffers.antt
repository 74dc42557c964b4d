-- ===== src/Tests/Buffers.antt =====
-- The double buffer in a small sequence of calls, and the serializers on three numbers.
use symbios.Serializers.{Binary, int_width, ulong_width}
use symbios.Serializers.RoundTrip.{HaveWidths, write_all, parse_all, parse_all-write_all}
use symbios.Base.{ℕ, ◌≡◌, arith, some, replicate, true, false, List, [], ◌∷◌}
use symbios.DoubleBuffer.{DoubleBuffer}
use symbios.DoubleBuffer.Contents.{Call, push_call, pop_call, pop_sync_call}

abbrev calls : List (Call ℕ)
calls =
    push_call false true true 4 ∷ push_call true true false 5 ∷ pop_call true ∷ pop_sync_call ∷ []

abbrev start : DoubleBuffer ℕ
start = record { first = 1 ∷ []; second = 2 ∷ [] }

abbrev fields : List (ℕ × ℕ)
fields = (int_width, 70000) ∷ (ulong_width, 5000000000) ∷ (int_width, 7) ∷ []

abbrev serializer : Binary
serializer = record { block = replicate 20 9; buf_off = 0 }

fields-HaveWidths : HaveWidths fields
fields-HaveWidths = (omega arith, (omega arith, (omega arith, tt)))

parse_all-write_all_example :
    (c : Binary) × (write_all fields serializer ≡ some c)
    × (parse_all fields (record { block = c.block; buf_off = 0 })
        ≡ some (70000 ∷ 5000000000 ∷ 7 ∷ []))
parse_all-write_all_example = parse_all-write_all fields serializer fields-HaveWidths (omega arith)
