-- ===== src/Mapred/TaskTracker.antt =====
-- src/mapred/task_tracker.h: the messages between a TaskTracker and the JobTracker; the child
-- Execution has the tasks and the shuffle. The threads and the connections are not modelled.
pub mod Protocol
pub mod Reports
pub mod Execution
pub mod Shuffle
pub mod Groups
pub mod Agreement
mod Examples
mod JobExamples
use mini_hadoop.Common.{
  ℕ, zero, suc, List, [], ◌∷◌, ◌++◌, Option, none, some, if◌then◌else◌, length,
}
use mini_hadoop.Common.Int.{ℤ, pos, eqb_ℤ, wrap32}
use mini_hadoop.Common.Text.{Bytes}
use mini_hadoop.Io.Buffer.{Reader, ◌>>=◌, return, read_int, read_string}
use mini_hadoop.Io.Buffer.Fields.{Field, int, string}
use mini_hadoop.Mapred.DistJobTracker.{
  MapOutputLocation, Task, TaskType, map_task, reduce_task, type_code, rounds,
}

-- The loop over the locations in a reply.
abbrev pub read_locations : ℕ → Reader (List MapOutputLocation)
read_locations zero = return []
read_locations (suc n) = do
  id ← read_string
  host ← read_string
  port ← read_int
  partition ← read_int
  rest ← read_locations n
  return (
      record { location_task_id = id; host = host; port = port; location_partition = partition }
      ∷ rest)

abbrev pub read_map_task : Bytes → ℤ → Reader Task
read_map_task id partition = do
  input ← read_string
  _ ← read_string
  _ ← read_int
  return (record {
    task_id = id;
    task_job_id = [];
    task_type = map_task;
    partition = partition;
    task_input_path = input;
    task_output_path = [];
    map_outputs = [];
  })

abbrev pub read_reduce_task : Bytes → ℤ → Reader Task
read_reduce_task id partition = do
  _ ← read_string
  output ← read_string
  count ← read_int
  locations ← read_locations (rounds count)
  return (record {
    task_id = id;
    task_job_id = [];
    task_type = reduce_task;
    partition = partition;
    task_input_path = [];
    task_output_path = output;
    map_outputs = locations;
  })

-- What `PollLoop` reads from a reply: `none` where there is no task. Any type but a map task is
-- executed as a reduce task.
unfoldable pub read_task : Reader (Option Task)
read_task = do
  has_task ← read_int
  (if eqb_ℤ has_task (pos 0) then return none else (do
    id ← read_string
    code ← read_int
    partition ← read_int
    task ←
        (if eqb_ℤ code (pos 0) then read_map_task id partition else read_reduce_task id partition)
    return (some task)))

-- The request of `ReportTaskComplete`, with the number of partitions over all map outputs.
unfoldable pub report_fields : Task → ℕ → Bytes → ℤ → List Field
report_fields t parts host shuffle_port =
    string t.task_id ∷ int (type_code t.task_type) ∷ elim t.task_type [
      | map_task ↦ int (wrap32 (pos parts)) ∷ string host ∷ int shuffle_port ∷ []
      | reduce_task ↦ []
    ]
