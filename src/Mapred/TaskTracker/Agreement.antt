-- ===== src/Mapred/TaskTracker/Agreement.antt =====
-- A reduce task of src/mapred/task_tracker.h behind the shuffle, beside the job of
-- src/mapred/job_tracker.h on the same lines.
use mini_hadoop.Common.{
  ℕ, ◌+◌, ◌<◌, ◌&&◌, ◌≡◌, refl, sym, ap, ap₂, ◌∙◌, Bool, true, false, List, [], ◌∷◌, ◌++◌,
  append-nil, append_assoc, none, some, arith, if◌then◌else◌, All, All-weaken, ok, Bool-cases, inl,
  inr,
}
use mini_hadoop.Common.Assoc.{Map, lookup, DistinctKeys}
use mini_hadoop.Common.Int.{ℤ, pos, eqb_ℤ}
use mini_hadoop.Common.Text.{Bytes, str_eq, str_eq_iff}
use mini_hadoop.Mapred.DistJobTracker.{MapOutputLocation}
use mini_hadoop.Mapred.JobTracker.{MapOutput, word_count_reduce, sort, pair_less, run_job}
use mini_hadoop.Mapred.JobTracker.Counting.{IsCountable, IsCountable-SameBag, run_job-sums}
use mini_hadoop.Mapred.JobTracker.Partitions.{map_outputs, weight-append}
use mini_hadoop.Mapred.JobTracker.Tally.{values_of, weigh, SameBag, summary-SameBag, sort-SameBag}
use mini_hadoop.Mapred.TaskTracker.Execution.{
  Store, reduce_all, print_results, execute_map_task, execute_reduce_task,
}
use mini_hadoop.Mapred.TaskTracker.Shuffle.{
  IsFitShuffle, answer, stored_for, stored_all, shuffle-stored_all, lookup-store_outputs,
}
use mini_hadoop.Mapred.TaskTracker.Groups.{values_of-reduce_all}

-- The tasks that a TaskTracker ran, by their ids, with the lines of each.
abbrev pub TasksRun : Type 0
TasksRun = Map Bytes (List (ℤ × Bytes))

-- The lines of all the map tasks.
abbrev pub all_lines :
    (MapOutputLocation → List (ℤ × Bytes)) → List MapOutputLocation → List (ℤ × Bytes)
all_lines lines [] = []
all_lines lines (loc ∷ locs) = lines loc ++ all_lines lines locs

module _ (hash : Bytes → ℕ) (mapper : ℤ → Bytes → List MapOutput) where
  unfoldable pub run_tasks : TasksRun → Store → Store
  run_tasks [] store = store
  run_tasks ((id, lines) ∷ tasks) store =
      run_tasks tasks (execute_map_task hash mapper id lines store)

  abbrev outputs_in : Bytes → TasksRun → List MapOutput
  outputs_in id [] = []
  outputs_in id ((i, lines) ∷ tasks) =
      (if str_eq i id then sort pair_less (map_outputs mapper lines) else []) ++ outputs_in id tasks

  stored_for-run_tasks :
      (tasks : TasksRun) (store : Store) (loc : MapOutputLocation)
      → loc.location_partition ≡ pos 0
      → stored_for (run_tasks tasks store) loc
        ≡ stored_for store loc ++ outputs_in loc.location_task_id tasks
  unfolding run_tasks
  stored_for-run_tasks [] store loc e = sym (append-nil (stored_for store loc))
  stored_for-run_tasks ((id, lines) ∷ tasks) store loc e =
      let outputs = sort pair_less (map_outputs mapper lines) in
      let first : stored_for (execute_map_task hash mapper id lines store) loc
          ≡ stored_for store loc ++ (if str_eq id loc.location_task_id then outputs else []) =
        unfold execute_map_task in
        lookup-store_outputs hash id outputs store (loc.location_task_id, loc.location_partition)
        ∙ drop_test (str_eq id loc.location_task_id) loc.location_partition outputs
            (stored_for store loc) e in
      stored_for-run_tasks tasks (execute_map_task hash mapper id lines store) loc e
      ∙ ap (λ (os : List MapOutput). os ++ outputs_in loc.location_task_id tasks) first
      ∙ append_assoc (stored_for store loc) _ (outputs_in loc.location_task_id tasks)
    where
      drop_test :
          (b : Bool) (p : ℤ) (outputs before : List MapOutput)
          → p ≡ pos 0
          → before ++ (if b && eqb_ℤ (pos 0) p then outputs else [])
            ≡ before ++ (if b then outputs else [])
      drop_test true p outputs before e = rw e refl
      drop_test false p outputs before e = refl

  outputs_in-none :
      (id : Bytes) (tasks : TasksRun) → lookup str_eq id tasks ≡ none → outputs_in id tasks ≡ []
  unfolding lookup
  outputs_in-none id [] e = refl
  outputs_in-none id ((i, lines) ∷ tasks) e = elim (Bool-cases (str_eq i id)) [
    | inl s ↦ absurd (ground arith)
    | inr s ↦ rw s (outputs_in-none id tasks (ground arith))
  ]

  outputs_in-some :
      (id : Bytes) (tasks : TasksRun) (lines : List (ℤ × Bytes))
      → DistinctKeys str_eq tasks
      → lookup str_eq id tasks ≡ some lines
      → outputs_in id tasks ≡ sort pair_less (map_outputs mapper lines)
  unfolding lookup
  outputs_in-some id [] lines d e = cc
  outputs_in-some id ((i, ls) ∷ tasks) lines (fresh, d) e = elim (Bool-cases (str_eq i id)) [
    | inl s ↦
        let same : i ≡ id = (str_eq_iff i id).0 s in
        let these : ls ≡ lines = ground arith in
        rw (s, these, outputs_in-none id tasks (rw same at fresh)) (append-nil _)
    | inr s ↦ rw s (outputs_in-some id tasks lines d (ground arith))
  ]

  map_outputs-append :
      (xs ys : List (ℤ × Bytes))
      → map_outputs mapper (xs ++ ys) ≡ map_outputs mapper xs ++ map_outputs mapper ys
  map_outputs-append [] ys = refl
  map_outputs-append ((o, line) ∷ xs) ys =
      ap (◌++◌ (mapper o line)) (map_outputs-append xs ys)
      ∙ sym (append_assoc (mapper o line) (map_outputs mapper xs) (map_outputs mapper ys))

  -- The TaskTracker at the location ran the map task on its lines, and what it has stored is within
  -- the limits of a message.
  pub record HasRun (ran : MapOutputLocation → TasksRun)
      (lines : MapOutputLocation → List (ℤ × Bytes)) (loc : MapOutputLocation) : Type 0 where
    pub first_partition : loc.location_partition ≡ pos 0
    pub ids_distinct : DistinctKeys str_eq (ran loc)
    pub among_them : lookup str_eq loc.location_task_id (ran loc) ≡ some (lines loc)
    pub fits : IsFitShuffle (run_tasks (ran loc) []) loc

  stored_for-HasRun :
      (ran : MapOutputLocation → TasksRun) (lines : MapOutputLocation → List (ℤ × Bytes))
      (loc : MapOutputLocation)
      → HasRun ran lines loc
      → stored_for (run_tasks (ran loc) []) loc ≡ sort pair_less (map_outputs mapper (lines loc))
  stored_for-HasRun ran lines loc h =
      stored_for-run_tasks (ran loc) [] loc h.first_partition
      ∙ ap (λ (os : List MapOutput). os ++ outputs_in loc.location_task_id (ran loc)) nothing
      ∙ outputs_in-some loc.location_task_id (ran loc) (lines loc) h.ids_distinct h.among_them
    where
      nothing : stored_for [] loc ≡ []
      nothing = unfold lookup in refl

  stored_all-SameBag :
      (key : Bytes) (ran : MapOutputLocation → TasksRun)
      (lines : MapOutputLocation → List (ℤ × Bytes)) (locs : List MapOutputLocation)
      → All (HasRun ran lines) locs
      → SameBag
          (values_of key (stored_all (λ loc. run_tasks (ran loc) []) locs))
          (values_of key (map_outputs mapper (all_lines lines locs)))
  stored_all-SameBag key ran lines [] h w = refl
  stored_all-SameBag key ran lines (loc ∷ locs) (hl, h) w =
      let here = stored_for (run_tasks (ran loc) []) loc in
      let rest = stored_all (λ loc. run_tasks (ran loc) []) locs in
      let one : weigh w (values_of key here)
          ≡ weigh w (values_of key (map_outputs mapper (lines loc))) =
        ap (λ (os : List MapOutput). weigh w (values_of key os))
          (stored_for-HasRun ran lines loc hl)
        ∙ sort-SameBag key pair_less (map_outputs mapper (lines loc)) w in
      weight-append w key here rest
      ∙ ap₂ ◌+◌ one (stored_all-SameBag key ran lines locs h w)
      ∙ sym (
          weight-append w key (map_outputs mapper (lines loc))
            (map_outputs mapper (all_lines lines locs)))
      ∙ ap (λ (os : List MapOutput). weigh w (values_of key os))
          (sym (map_outputs-append (lines loc) (all_lines lines locs)))

  module _ (hash' : Bytes → ℕ) (combining : Bool) (n : ℕ) where
    -- Where TaskTrackers ran map tasks, other tasks before and after them, and every call of the
    -- shuffle succeeds, the reduce task of the first partition with the reducer of the word count
    -- writes results that have for each key the same values as those of `RunJob` on all the lines, for
    -- any number of reduce tasks but 0, any hash, and with or without the combiner, if no value of
    -- the key is negative and their sum is below 2^63.
    pub execute_reduce_task-run_job :
        (ran : MapOutputLocation → TasksRun) (lines : MapOutputLocation → List (ℤ × Bytes))
        (locs : List MapOutputLocation) (key : Bytes)
        → All (HasRun ran lines) locs
        → 0 < n
        → IsCountable (values_of key (map_outputs mapper (all_lines lines locs)))
        → (results : List MapOutput) × (execute_reduce_task word_count_reduce
              (λ loc. answer (run_tasks (ran loc) []))
              (pos 0)
              locs
            ≡ ok (print_results results))
          × (values_of key results
              ≡ values_of key
                  (run_job hash' mapper word_count_reduce combining n (all_lines lines locs)))
    unfolding execute_reduce_task
    execute_reduce_task-run_job ran lines locs key h positive countable =
        let stores : MapOutputLocation → Store = λ loc. run_tasks (ran loc) [] in
        let fetched = stored_all stores locs in
        let collected = values_of key (map_outputs mapper (all_lines lines locs)) in
        let same = stored_all-SameBag key ran lines locs h in
        let got =
          shuffle-stored_all stores (pos 0) locs
            (All-weaken (HasRun ran lines) _ locs (λ loc k. (k.first_partition, k.fits)) h) in
        (
          reduce_all word_count_reduce fetched,
          rw (execute_reduce_task, got) refl,
          values_of-reduce_all key fetched
                (IsCountable-SameBag (values_of key fetched) collected same countable)
              ∙ summary-SameBag (values_of key fetched) collected same
              ∙ sym (
                  run_job-sums hash' mapper combining n (all_lines lines locs) key positive
                    countable.0 countable.1),
        )
