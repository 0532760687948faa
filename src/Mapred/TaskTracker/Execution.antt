-- ===== src/Mapred/TaskTracker/Execution.antt =====
-- src/mapred/task_tracker.h: `ExecuteMapTask`, the shuffle server, and `ExecuteReduceTask`. What a
-- call of the shuffle server of another TaskTracker returns is a parameter of a reduce task; `none` is
-- a connection or a call that fails. The lines of the input are an argument.
use mini_hadoop.Common.{
  ℕ, zero, suc, ◌%◌, ◌^◌, ◌&&◌, Bool, true, false, List, [], ◌∷◌, ◌++◌, Option, none, some,
  if◌then◌else◌, length, Outcome, ok, throws,
}
use mini_hadoop.Common.Assoc.{Map, lookup, insert}
use mini_hadoop.Common.Decimal.{print_long}
use mini_hadoop.Common.Int.{ℤ, pos, eqb_ℤ, wrap32}
use mini_hadoop.Common.Text.{Bytes, str_eq}
use mini_hadoop.Io.Buffer.{
  OutputBuffer, Reader, ◌>>=◌, return, reset, read_int, read_long, read_string,
}
use mini_hadoop.Io.Buffer.Fields.{Field, int, long, string, write_fields}
use mini_hadoop.Ipc.Rpc.{Handler}
use mini_hadoop.Mapred.DistJobTracker.{MapOutputLocation, rounds}
use mini_hadoop.Mapred.JobTracker.{MapOutput, sort, pair_less, reduce_groups}
use mini_hadoop.Mapred.JobTracker.Partitions.{map_outputs}

-- A key of `map_outputs_`: a task and a partition.
abbrev pub Slot : Type 0
Slot = Bytes × ℤ

abbrev pub slot_eq : Slot → Slot → Bool
slot_eq (a, p) (b, q) = str_eq a b && eqb_ℤ p q

-- `map_outputs_`
abbrev pub Store : Type 0
Store = Map Slot (List MapOutput)

-- `map_outputs_[slot]`, which makes an empty entry.
abbrev pub stored : Option (List MapOutput) → List MapOutput
stored none = []
stored (some outputs) = outputs

abbrev pub push_output : Slot → MapOutput → Store → Store
push_output slot kv store =
    insert slot_eq slot (stored (lookup slot_eq slot store) ++ (kv ∷ [])) store

-- `num_reduces`
abbrev pub num_reduces : ℕ
num_reduces = 1

unfoldable pub hash_partition : (Bytes → ℕ) → Bytes → ℤ
hash_partition hash k = if str_eq k [] then pos 0 else pos (hash k % 2 ^ 31 % num_reduces)

unfoldable pub store_outputs : (Bytes → ℕ) → Bytes → List MapOutput → Store → Store
store_outputs hash id [] store = store
store_outputs hash id ((k, v) ∷ outputs) store =
    store_outputs hash id outputs (push_output (id, hash_partition hash k) (k, v) store)

-- `ExecuteMapTask`
unfoldable pub execute_map_task :
    (Bytes → ℕ) → (ℤ → Bytes → List MapOutput) → Bytes → List (ℤ × Bytes) → Store → Store
unfolding store_outputs
execute_map_task hash mapper id lines store =
    store_outputs hash id (sort pair_less (map_outputs mapper lines)) store

abbrev pub output_fields : List MapOutput → List Field
output_fields [] = []
output_fields ((k, v) ∷ outputs) = string k ∷ long v ∷ output_fields outputs

-- The reply of the shuffle server.
unfoldable pub shuffle_fields : Option (List MapOutput) → List Field
shuffle_fields none = int (pos 0) ∷ []
shuffle_fields (some outputs) =
    int (pos 1) ∷ int (wrap32 (pos (length outputs))) ∷ output_fields outputs

-- The handler of `SetupShuffleServer`.
unfoldable pub handle_shuffle : Handler Store
unfolding shuffle_fields
handle_shuffle store = do
  id ← read_string
  partition ← read_int
  return (store, write_fields [] (shuffle_fields (lookup slot_eq (id, partition) store)))

abbrev pub shuffle_request : MapOutputLocation → List Field
shuffle_request loc = string loc.location_task_id ∷ int loc.location_partition ∷ []

abbrev pub read_outputs : ℕ → Reader (List MapOutput)
read_outputs zero = return []
read_outputs (suc n) = do
  k ← read_string
  v ← read_long
  rest ← read_outputs n
  return ((k, v) ∷ rest)

-- What a reduce task reads from the reply.
unfoldable pub read_shuffle : Reader (List MapOutput)
read_shuffle = do
  found ← read_int
  (if eqb_ℤ found (pos 0) then return [] else (do count ← read_int; read_outputs (rounds count)))

abbrev pub Fetch : Type 0
Fetch = MapOutputLocation → OutputBuffer → Option Bytes

abbrev pub joined : List MapOutput → Outcome (List MapOutput) → Outcome (List MapOutput)
joined outputs (throws e) = throws e
joined outputs (ok rest) = ok (outputs ++ rest)

-- The loop over the locations. An exception of a read leaves the thread.
unfoldable pub shuffle : Fetch → ℤ → List MapOutputLocation → Outcome (List MapOutput)
unfolding read_shuffle
shuffle fetch partition [] = ok []
shuffle fetch partition (loc ∷ locs) =
    let rest = shuffle fetch partition locs in
    let fetched : Outcome (List MapOutput) =
      elim (fetch loc (write_fields [] (shuffle_request loc))) [
        | none ↦ rest
        | some resp ↦ elim (read_shuffle (reset resp)) [
          | throws e ↦ throws e
          | ok (outputs, _) ↦ joined outputs rest
        ]
      ] in
    if eqb_ℤ loc.location_partition partition then fetched else rest

-- The inner loop over the outputs of one key.
unfoldable pub take_same : Bytes → List MapOutput → List ℤ × List MapOutput
take_same key [] = ([], [])
take_same key ((k, v) ∷ outputs) =
    let (vs, rest) = take_same key outputs in
    if str_eq k key then (v ∷ vs, rest) else ([], (k, v) ∷ outputs)

-- The outer loop; each round takes one output at least.
unfoldable pub group_same : ℕ → List MapOutput → List (Bytes × List ℤ)
unfolding take_same
group_same zero outputs = []
group_same (suc fuel) [] = []
group_same (suc fuel) ((k, v) ∷ outputs) =
    (k, (take_same k ((k, v) ∷ outputs)).0) ∷ group_same fuel (take_same k ((k, v) ∷ outputs)).1

-- The results of the outputs that were fetched.
unfoldable pub reduce_all : (Bytes → List ℤ → List MapOutput) → List MapOutput → List MapOutput
unfolding group_same
reduce_all reducer outputs =
    let sorted = sort pair_less outputs in reduce_groups reducer (group_same (length sorted) sorted)

-- The lines of the output file.
unfoldable pub print_results : List MapOutput → Bytes
unfolding print_long
print_results [] = []
print_results ((k, v) ∷ results) = k ++ (9 ∷ (print_long v ++ (10 ∷ print_results results)))

-- `ExecuteReduceTask`: the output file.
unfoldable pub execute_reduce_task :
    (Bytes → List ℤ → List MapOutput) → Fetch → ℤ → List MapOutputLocation → Outcome Bytes
unfolding shuffle reduce_all print_results
execute_reduce_task reducer fetch partition locs = elim (shuffle fetch partition locs) [
  | throws e ↦ throws e
  | ok outputs ↦ ok (print_results (reduce_all reducer outputs))
]

abbrev pub mem_partition : ℤ → List ℤ → Bool
mem_partition p [] = false
mem_partition p (q ∷ qs) = if eqb_ℤ q p then true else mem_partition p qs

-- The set of partitions over all tasks, whose size `ReportTaskComplete` sends.
unfoldable pub partitions : Store → List ℤ
partitions [] = []
partitions (((id, p), _) ∷ store) =
    let ps = partitions store in if mem_partition p ps then ps else p ∷ ps
