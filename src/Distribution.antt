-- ===== src/Distribution.antt =====
-- src/symbios/data_distribution: which storage a request goes to, under each policy.
pub mod Choice
use symbios.Base.{
  ℕ, ◌*◌, ◌%◌, ◌≡◌, Bool, true, false, Option, none, some, List, [], ◌∷◌, ltb, ◌==◌, if◌then◌else◌,
  length,
}
use symbios.Base.Result.{Result, ok, err, division_by_zero, ◌>>=◌}
use symbios.Objects.{Data, DataDistribution, IoClientType, file_io, redis_io, mongo_io}

-- `DataDistributionPolicy`
pub data Policy : Type 0 where
  random_policy round_robin_policy heuristics_policy dynamic_programming_policy : Policy

-- STORAGE_SOLUTIONS, as far as the engines read it: the index and the type of each storage, in the
-- order in which the map yields them.
abbrev pub Solutions : Type 0
Solutions = List (ℕ × IoClientType)

unfoldable pub same_type : IoClientType → IoClientType → Bool
same_type file_io file_io = true
same_type redis_io redis_io = true
same_type mongo_io mongo_io = true
same_type _ _ = false

-- The constructor of `HeuristicsDDE` keeps the first storage of each type, and `maps[type].first` is
-- 0 if there is none.
unfoldable pub first_of_type : IoClientType → Solutions → ℕ
unfolding same_type
first_of_type t [] = 0
first_of_type t ((i, u) ∷ rest) = if same_type u t then i else first_of_type t rest

-- The type that `HeuristicsDDE` picks for a size in bytes.
unfoldable pub type_for_size : ℕ → IoClientType
type_for_size size =
    if ltb size (16 * 1024) then mongo_io else if ltb size (128 * 1024) then redis_io else file_io

-- The one distribution of a request, with the storage that was selected.
unfoldable pub place : Data → Data → ℕ → List DataDistribution
place source destination index =
    record {
      source_data = source;
      destination_data = record destination { storage_index = index };
      storage_index = source.storage_index;
    }
    ∷ []

-- `number % STORAGE_SOLUTIONS.size()`
unfoldable pub modulo_size : ℕ → Solutions → Result ℕ
modulo_size number solutions =
    if length solutions == 0 then err division_by_zero else ok (number % length solutions)

-- `Distribute`; `random` is what `rand` returns, and `next` the next value of the sequence.
unfoldable pub distribute :
    Policy → ℕ → ℕ → Solutions → Data → Data → Result (List DataDistribution)
unfolding modulo_size place first_of_type type_for_size
distribute random_policy random next solutions source destination =
    modulo_size random solutions >>= λ i. ok (place source destination i)
distribute round_robin_policy random next solutions source destination =
    modulo_size next solutions >>= λ i. ok (place source destination i)
distribute heuristics_policy random next solutions source destination =
    ok (place source destination (first_of_type (type_for_size destination.data_size) solutions))
distribute dynamic_programming_policy random next solutions source destination = ok []
