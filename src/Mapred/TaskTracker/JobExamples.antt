-- ===== src/Mapred/TaskTracker/JobExamples.antt =====
-- A job of two map tasks on one TaskTracker and a reduce task.
use mini_hadoop.Common.{◌≡◌, refl, true, List, [], ◌∷◌, length, arith, ok, All, if◌then◌else◌}
use mini_hadoop.Common.Assoc.{lookup, insert}
use mini_hadoop.Common.Int.{ℤ, pos, to_u32, of_u32, to_u64}
use mini_hadoop.Common.Text.{Bytes, codes, str_eq}
use mini_hadoop.Common.Text.Order.{str_compare}
use mini_hadoop.Io.Writables.Utf8Order.{compare_to}
use mini_hadoop.Io.Buffer.{write_int, write_long, write_string}
use mini_hadoop.Mapred.DistJobTracker.{MapOutputLocation}
use mini_hadoop.Mapred.JobTracker.{MapOutput, run_job, word_count_reduce}
use mini_hadoop.Mapred.JobTracker.Tally.{values_of}
use mini_hadoop.Mapred.TaskTracker.Agreement.{
  TasksRun, HasRun, all_lines, run_tasks, execute_reduce_task-run_job,
}
use mini_hadoop.Mapred.TaskTracker.Execution.{
  execute_map_task, execute_reduce_task, print_results, partitions, store_outputs, hash_partition,
  shuffle_fields,
}
use mini_hadoop.Mapred.TaskTracker.Shuffle.{answer}

-- A mapper that counts its line as one word.
abbrev one_word : ℤ → Bytes → List MapOutput
one_word _ line = (line, pos 1) ∷ []

abbrev at_task : Bytes → MapOutputLocation
at_task id = record {
  location_task_id = id;
  host = codes "host";
  port = pos 9000;
  location_partition = pos 0;
}

abbrev first_lines : List (ℤ × Bytes)
first_lines = (pos 0, codes "a") ∷ (pos 2, codes "b") ∷ []

abbrev second_lines : List (ℤ × Bytes)
second_lines = (pos 0, codes "a") ∷ []

abbrev both : TasksRun
both = (codes "m0", first_lines) ∷ (codes "m1", second_lines) ∷ []

abbrev lines_at : MapOutputLocation → List (ℤ × Bytes)
lines_at loc = if str_eq loc.location_task_id (codes "m0") then first_lines else second_lines

abbrev locations : List MapOutputLocation
locations = at_task (codes "m0") ∷ at_task (codes "m1") ∷ []

locations-HasRun : All (HasRun length one_word (λ _. both) lines_at) locations
unfolding run_tasks execute_map_task store_outputs hash_partition lookup insert str_eq write_int
    write_long write_string shuffle_fields to_u32 of_u32 to_u64 compare_to str_compare
locations-HasRun = (
  record {
    first_partition = refl;
    ids_distinct = (refl, (refl, tt));
    among_them = refl;
    fits = record {
      id_fits = omega arith;
      partition_fits = omega arith;
      outputs_fit = omega arith;
      request_small = omega arith;
      reply_small = omega arith;
    };
  },
  (
    record {
      first_partition = refl;
      ids_distinct = (refl, (refl, tt));
      among_them = refl;
      fits = record {
        id_fits = omega arith;
        partition_fits = omega arith;
        outputs_fit = omega arith;
        request_small = omega arith;
        reply_small = omega arith;
      };
    },
    tt,
  ),
)

execute_reduce_task-run_job_example :
    (results : List MapOutput) × (execute_reduce_task word_count_reduce
        (λ loc. answer (run_tasks length one_word both []))
        (pos 0)
        locations
      ≡ ok (print_results results))
    × (values_of (codes "a") results
        ≡ values_of
            (codes "a")
            (run_job length one_word word_count_reduce true 3 (all_lines lines_at locations)))
execute_reduce_task-run_job_example =
    execute_reduce_task-run_job length one_word length true 3 (λ _. both) lines_at locations
      (codes "a") locations-HasRun (omega arith) (unfold str_eq in omega arith)

-- Only the first of the partitions has outputs.
partitions_of_both : partitions (run_tasks length one_word both []) ≡ pos 0 ∷ []
unfolding partitions run_tasks execute_map_task store_outputs hash_partition lookup insert str_eq
    compare_to str_compare
partitions_of_both = refl
