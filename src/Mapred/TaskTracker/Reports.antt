-- ===== src/Mapred/TaskTracker/Reports.antt =====
-- The reports of src/mapred/task_tracker.h, as src/mapred/dist_job_tracker.h reads them.
use mini_hadoop.Common.{ℕ, ◌<◌, ◌^◌, ◌≡◌, refl, sym, subst, [], length, arith, All, ok}
use mini_hadoop.Common.Int.{ℤ, pos, IsInt32, wrap32_of_lt}
use mini_hadoop.Common.Text.{Bytes}
use mini_hadoop.Io.Buffer.{OutputBuffer, reset, read_int, read_string, write_int}
use mini_hadoop.Io.Buffer.Cursor.{Reads, >>=-Reads, return-Reads}
use mini_hadoop.Io.Buffer.RoundTrip.{read_int-Reads, read_string-Reads, size-Reads}
use mini_hadoop.Io.Buffer.Fields.{IsFit, fields_bytes, write_fields, read_message}
use mini_hadoop.Mapred.DistJobTracker.{
  DistJobTracker, Task, TaskType, map_task, reduce_task, map_completed, reduce_completed,
}
use mini_hadoop.Mapred.DistJobTracker.Handlers.{handle_completed}
use mini_hadoop.Mapred.TaskTracker.{report_fields}

-- What a report is to do: count a reduce task, or count a map task and file its outputs.
abbrev pub completed : Task → ℕ → Bytes → ℤ → DistJobTracker → DistJobTracker
completed t parts host port s = elim t.task_type [
  | map_task ↦ map_completed t.task_id (pos parts) host port s
  | reduce_task ↦ reduce_completed s
]

-- The JobTracker, and its reply of 1.
abbrev pub acknowledged : DistJobTracker → DistJobTracker × OutputBuffer
acknowledged s = (s, write_int [] (pos 1))

module _ (t : Task) (parts : ℕ) (host : Bytes) (port : ℤ) (s : DistJobTracker)
    (hi : length t.task_id < 2 ^ 31) (hn : parts < 2 ^ 31) (hh : length host < 2 ^ 31)
    (hp : IsInt32 port) where
  report_fields-IsFit : All IsFit (report_fields t parts host port)
  unfolding report_fields
  report_fields-IsFit = go t.task_type refl
    where
      go : (k : TaskType) → t.task_type ≡ k → All IsFit (report_fields t parts host port)
      go map_task e =
          rw e (hi, (omega arith, (subst IsInt32 (sym (wrap32_of_lt parts hn)) hn, (hh, (hp, tt)))))
      go reduce_task e = rw e (hi, (omega arith, tt))

  handle_completed-Reads :
      Reads
        (handle_completed s)
        (acknowledged (completed t parts host port s))
        (fields_bytes (report_fields t parts host port))
  unfolding handle_completed report_fields
  handle_completed-Reads = go t.task_type refl
    where
      go :
          (k : TaskType)
          → t.task_type ≡ k
          → Reads
              (handle_completed s)
              (acknowledged (completed t parts host port s))
              (fields_bytes (report_fields t parts host port))
      go map_task e = rw e (
          >>=-Reads read_string _ (read_string-Reads t.task_id hi) (
            >>=-Reads read_int _ (read_int-Reads (pos 0) (omega arith)) (
              >>=-Reads read_int _ (size-Reads parts hn) (
                >>=-Reads read_string _ (read_string-Reads host hh)
                  (>>=-Reads read_int _ (read_int-Reads port hp) (return-Reads _))))))
      go reduce_task e = rw e (
          >>=-Reads read_string _ (read_string-Reads t.task_id hi)
            (>>=-Reads read_int _ (read_int-Reads (pos 1) (omega arith)) (return-Reads _)))

-- If the values fit their C++ types, the JobTracker takes the report of a TaskTracker for what it is:
-- it counts a reduce task, or counts a map task and files one output for each partition, and
-- answers 1.
pub handle_completed-report_fields :
    (t : Task) (parts : ℕ) (host : Bytes) (port : ℤ) (s : DistJobTracker)
    → length t.task_id < 2 ^ 31
    → parts < 2 ^ 31
    → length host < 2 ^ 31
    → IsInt32 port
    → length (write_fields [] (report_fields t parts host port)) < 2 ^ 63
    → handle_completed s (reset (write_fields [] (report_fields t parts host port)))
      ≡ ok (
        acknowledged (completed t parts host port s),
        record {
          contents = write_fields [] (report_fields t parts host port);
          position = length (write_fields [] (report_fields t parts host port));
        },
      )
handle_completed-report_fields t parts host port s hi hn hh hp small =
    read_message (handle_completed s) (acknowledged (completed t parts host port s))
      (report_fields t parts host port) (report_fields-IsFit t parts host port s hi hn hh hp) small
      (handle_completed-Reads t parts host port s hi hn hh hp)
