-- ===== src/Mapred/TaskTracker/Examples.antt =====
-- A concrete reply of src/mapred/dist_job_tracker.h, read by src/mapred/task_tracker.h, and the
-- report that follows.
use mini_hadoop.Common.{◌≡◌, ◌<◌, ◌^◌, [], ◌∷◌, some, length, ok, arith}
use mini_hadoop.Common.Int.{pos, to_u32, of_u32}
use mini_hadoop.Common.Text.{codes}
use mini_hadoop.Io.Buffer.{reset, write_int, write_string, write_raw}
use mini_hadoop.Io.Buffer.Fields.{write_fields}
use mini_hadoop.Mapred.DistJobTracker.{
  new_tracker, MapOutputLocation, Task, new_reduce_task, job_001,
}
use mini_hadoop.Mapred.DistJobTracker.Handlers.{handle_completed, reply_fields}
use mini_hadoop.Mapred.TaskTracker.{read_task, report_fields}
use mini_hadoop.Mapred.TaskTracker.Reports.{acknowledged, completed, handle_completed-report_fields}
use mini_hadoop.Mapred.TaskTracker.Protocol.{IsFitTask, as_read, read_task-reply}

abbrev location : MapOutputLocation
location = record {
  location_task_id = codes "job_001_m_0";
  host = codes "h";
  port = pos 9;
  location_partition = pos 0;
}

abbrev task : Task
task = record (new_reduce_task job_001 (codes "out") (location ∷ []) 0) {
  task_id = codes "job_001_r_0";
}

task-IsFitTask : IsFitTask task
task-IsFitTask = record {
  id_fits = omega arith;
  partition_fits = omega arith;
  input_fits = omega arith;
  output_fits = omega arith;
  locations_fit = ((omega arith, omega arith, omega arith, omega arith), tt);
  count_fits = omega arith;
}

reply_small : length (write_fields [] (reply_fields (some task))) < 2 ^ 63
unfolding reply_fields write_int write_string write_raw to_u32 of_u32
reply_small = omega arith

read_task-reply_example :
    read_task (reset (write_fields [] (reply_fields (some task))))
    ≡ ok (
      some (as_read task),
      record {
        contents = write_fields [] (reply_fields (some task));
        position = length (write_fields [] (reply_fields (some task)));
      },
    )
read_task-reply_example = read_task-reply task task-IsFitTask reply_small

report_small : length (write_fields [] (report_fields task 0 (codes "h") (pos 9))) < 2 ^ 63
unfolding report_fields write_int write_string write_raw to_u32 of_u32
report_small = omega arith

handle_completed-report_fields_example :
    handle_completed new_tracker
      (reset (write_fields [] (report_fields task 0 (codes "h") (pos 9))))
    ≡ ok (
      acknowledged (completed task 0 (codes "h") (pos 9) new_tracker),
      record {
        contents = write_fields [] (report_fields task 0 (codes "h") (pos 9));
        position = length (write_fields [] (report_fields task 0 (codes "h") (pos 9)));
      },
    )
handle_completed-report_fields_example =
    handle_completed-report_fields task 0 (codes "h") (pos 9) new_tracker (omega arith)
      (omega arith) (omega arith) (omega arith) report_small
