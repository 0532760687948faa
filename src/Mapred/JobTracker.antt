-- ===== src/Mapred/JobTracker.antt =====
-- src/mapred/job_tracker.h: `RunJob` from the lines of the input to the results, with the partitioner
-- of src/mapred/api/mapper.h and the word count of src/mapred/examples/wordcount.h. The mapper, the
-- reducer and `std::hash` are parameters. The lines of the input are an argument, which
-- Mapred/TextReader reads; the writing of the output file is not modelled. `num_reduce_tasks` is
-- positive.
pub mod Grouping
pub mod Tally
pub mod Sorting
pub mod Sums
pub mod Partitions
pub mod Counting
mod Examples
use mini_hadoop.Common.{
  ℕ, zero, suc, ◌%◌, ◌^◌, Bool, true, false, List, [], ◌∷◌, ◌++◌, replicate, if◌then◌else◌, length,
}
use mini_hadoop.Common.Int.{ℤ, pos, ◌+ℤ◌, ltb_ℤ, eqb_ℤ, wrap64}
use mini_hadoop.Common.Text.{Bytes}
use mini_hadoop.Io.Writables.Utf8Order.{compare_to}

-- A key with its value.
abbrev pub MapOutput : Type 0
MapOutput = Bytes × ℤ

-- `HashPartitioner::GetPartition`
unfoldable pub get_partition : (Bytes → ℕ) → Bytes → ℕ → ℕ
get_partition hash key num_partitions = hash key % 2 ^ 31 % num_partitions

-- `(*parts)[p].push_back`
abbrev pub push_at : ℕ → MapOutput → List (List MapOutput) → List (List MapOutput)
push_at p kv [] = []
push_at zero kv (part ∷ parts) = (part ++ (kv ∷ [])) ∷ parts
push_at (suc p) kv (part ∷ parts) = part ∷ push_at p kv parts

-- `MapCollector::Collect` for all that one call of the mapper collects.
abbrev pub collect :
    (Bytes → ℕ) → ℕ → List MapOutput → List (List MapOutput) → List (List MapOutput)
collect hash n [] parts = parts
collect hash n ((k, v) ∷ outputs) parts =
    collect hash n outputs (push_at (get_partition hash k n) (k, v) parts)

abbrev pub map_phase :
    (Bytes → ℕ)
    → (ℤ → Bytes → List MapOutput)
    → ℕ
    → List (ℤ × Bytes)
    → List (List MapOutput)
    → List (List MapOutput)
map_phase hash mapper n [] parts = parts
map_phase hash mapper n ((key, line) ∷ lines) parts =
    map_phase hash mapper n lines (collect hash n (mapper key line) parts)

-- `std::sort` by a test of less. The order of equal elements is not specified.
abbrev pub insert_sorted :
    (MapOutput → MapOutput → Bool) → MapOutput → List MapOutput → List MapOutput
insert_sorted less x [] = x ∷ []
insert_sorted less x (y ∷ ys) =
    let later = insert_sorted less x ys in if less y x then y ∷ later else x ∷ y ∷ ys

abbrev pub sort : (MapOutput → MapOutput → Bool) → List MapOutput → List MapOutput
sort less [] = []
sort less (x ∷ xs) = insert_sorted less x (sort less xs)

abbrev pub key_less : MapOutput → MapOutput → Bool
key_less (a, _) (b, _) = ltb_ℤ (compare_to a b) (pos 0)

-- `operator<` on pairs.
abbrev pub pair_less : MapOutput → MapOutput → Bool
pair_less (a, v) (b, w) =
    if ltb_ℤ (compare_to a b) (pos 0)
    then true
    else if ltb_ℤ (compare_to b a) (pos 0)
    then false
    else ltb_ℤ v w

-- The inner loop over the outputs of one key: its values, and what follows.
unfoldable pub take_values : Bytes → List MapOutput → List ℤ × List MapOutput
take_values key [] = ([], [])
take_values key ((k, v) ∷ part) =
    let (vs, rest) = take_values key part in
    if eqb_ℤ (compare_to k key) (pos 0) then (v ∷ vs, rest) else ([], (k, v) ∷ part)

-- The outer loop; each round takes one output at least.
unfoldable pub group_loop : ℕ → List MapOutput → List (Bytes × List ℤ)
unfolding take_values
group_loop zero part = []
group_loop (suc fuel) [] = []
group_loop (suc fuel) ((k, v) ∷ part) =
    (k, (take_values k ((k, v) ∷ part)).0) ∷ group_loop fuel (take_values k ((k, v) ∷ part)).1

unfoldable pub group : List MapOutput → List (Bytes × List ℤ)
unfolding group_loop
group part = group_loop (length part) part

abbrev pub sum_values : List ℤ → ℤ → ℤ
sum_values [] sum = sum
sum_values (v ∷ vs) sum = sum_values vs (wrap64 (sum +ℤ v))

-- The combiner of `RunJob`, on the groups of a partition.
abbrev pub combine : List (Bytes × List ℤ) → List MapOutput
combine [] = []
combine ((k, vs) ∷ groups) = (k, sum_values vs (pos 0)) ∷ combine groups

abbrev pub reduce_groups :
    (Bytes → List ℤ → List MapOutput) → List (Bytes × List ℤ) → List MapOutput
reduce_groups reducer [] = []
reduce_groups reducer ((k, vs) ∷ groups) = reducer k vs ++ reduce_groups reducer groups

abbrev pub prepare : Bool → List MapOutput → List MapOutput
prepare combining part =
    if combining then combine (group (sort key_less part)) else sort key_less part

abbrev pub reduce_phase :
    (Bytes → List ℤ → List MapOutput) → Bool → List (List MapOutput) → List MapOutput
reduce_phase reducer combining [] = []
reduce_phase reducer combining (part ∷ parts) =
    reduce_groups reducer (group (prepare combining part)) ++ reduce_phase reducer combining parts

-- The results that `RunJob` writes, in the order of the output file.
unfoldable pub run_job :
    (Bytes → ℕ)
    → (ℤ → Bytes → List MapOutput)
    → (Bytes → List ℤ → List MapOutput)
    → Bool
    → ℕ
    → List (ℤ × Bytes)
    → List MapOutput
unfolding get_partition group compare_to
run_job hash mapper reducer combining n lines =
    sort pair_less (reduce_phase reducer combining (map_phase hash mapper n lines (replicate n [])))

-- `WordCountReducer::Reduce`; `WordCountCombiner::Combine` has the same body.
unfoldable pub word_count_reduce : Bytes → List ℤ → List MapOutput
word_count_reduce key values = (key, sum_values values (pos 0)) ∷ []
