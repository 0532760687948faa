-- ===== src/Mapred/TaskTracker/Protocol.antt =====
-- The replies of src/mapred/dist_job_tracker.h, as src/mapred/task_tracker.h reads them.
use mini_hadoop.Common.{
  ◌^◌, ◌<◌, ◌≡◌, refl, sym, subst, List, [], ◌∷◌, append-nil, some, ok, length, arith, All,
}
use mini_hadoop.Common.Int.{pos, IsInt32, wrap32, wrap32_of_lt}
use mini_hadoop.Io.Buffer.{reset, read_int, read_string}
use mini_hadoop.Io.Buffer.Cursor.{Reads, >>=-Reads, map-Reads, return-Reads}
use mini_hadoop.Io.Buffer.RoundTrip.{read_int-Reads, read_string-Reads, size-Reads}
use mini_hadoop.Io.Buffer.Fields.{
  read_message, write_fields, IsFit, fields_bytes, field_bytes, int, string,
}
use mini_hadoop.Mapred.DistJobTracker.{MapOutputLocation, Task, TaskType, map_task, reduce_task}
use mini_hadoop.Mapred.DistJobTracker.Handlers.{location_fields, reply_fields}
use mini_hadoop.Mapred.TaskTracker.{read_locations, read_map_task, read_reduce_task, read_task}

-- The values fit their C++ types, and the strings are below 2 GiB.
abbrev pub IsFitLocation : MapOutputLocation → Type 0
IsFitLocation l =
    (length l.location_task_id < 2 ^ 31)
    × (length l.host < 2 ^ 31)
    × IsInt32 l.port
    × IsInt32 l.location_partition

pub record IsFitTask (t : Task) : Type 0 where
  pub id_fits : length t.task_id < 2 ^ 31
  pub partition_fits : IsInt32 t.partition
  pub input_fits : length t.task_input_path < 2 ^ 31
  pub output_fits : length t.task_output_path < 2 ^ 31
  pub locations_fit : All IsFitLocation t.map_outputs
  pub count_fits : length t.map_outputs < 2 ^ 31

read_locations-Reads :
    (ls : List MapOutputLocation)
    → All IsFitLocation ls
    → Reads (read_locations (length ls)) ls (fields_bytes (location_fields ls))
read_locations-Reads [] h = return-Reads []
read_locations-Reads (l ∷ ls) ((hi, hh, hp, hq), h) =
    >>=-Reads read_string _ (read_string-Reads l.location_task_id hi) (
      >>=-Reads read_string _ (read_string-Reads l.host hh) (
        >>=-Reads read_int _ (read_int-Reads l.port hp) (
          >>=-Reads read_int _ (read_int-Reads l.location_partition hq)
            (map-Reads (read_locations (length ls)) (◌∷◌ l) (read_locations-Reads ls h)))))

-- The third empty string of the reply is read as the number of outputs.
empty-Reads : Reads read_int (pos 0) (field_bytes (string []))
empty-Reads = subst (Reads read_int (pos 0)) (sym (append-nil _)) (size-Reads 0 (omega arith))

-- A task as its tracker sees it: only what concerns its type.
abbrev pub as_read : Task → Task
as_read t = elim t.task_type [
  | map_task ↦ record t {
    task_job_id = [];
    task_type = map_task;
    task_output_path = [];
    map_outputs = [];
  }
  | reduce_task ↦ record t { task_job_id = []; task_type = reduce_task; task_input_path = [] }
]

read_map_task-Reads :
    (t : Task)
    → IsFitTask t
    → Reads
        (read_map_task t.task_id t.partition)
        (record t {
          task_job_id = [];
          task_type = map_task;
          task_output_path = [];
          map_outputs = [];
        })
        (fields_bytes (string t.task_input_path ∷ string [] ∷ string [] ∷ []))
read_map_task-Reads t h =
    >>=-Reads read_string _ (read_string-Reads t.task_input_path h.input_fits) (
      >>=-Reads read_string _ (read_string-Reads [] (omega arith))
        (>>=-Reads read_int _ empty-Reads (return-Reads _)))

read_reduce_task-Reads :
    (t : Task)
    → IsFitTask t
    → Reads
        (read_reduce_task t.task_id t.partition)
        (record t { task_job_id = []; task_type = reduce_task; task_input_path = [] })
        (fields_bytes (
          string []
          ∷ string t.task_output_path
          ∷ int (wrap32 (pos (length t.map_outputs)))
          ∷ location_fields t.map_outputs))
read_reduce_task-Reads t h = >>=-Reads read_string _ (read_string-Reads [] (omega arith)) (
    >>=-Reads read_string _ (read_string-Reads t.task_output_path h.output_fits) (
      >>=-Reads read_int _ (size-Reads (length t.map_outputs) h.count_fits) (
        map-Reads (read_locations (length t.map_outputs)) _
          (read_locations-Reads t.map_outputs h.locations_fit))))

read_task-Reads :
    (t : Task)
    → IsFitTask t
    → Reads read_task (some (as_read t)) (fields_bytes (reply_fields (some t)))
unfolding read_task reply_fields
read_task-Reads t h = go t.task_type refl
  where
    go :
        (k : TaskType)
        → t.task_type ≡ k
        → Reads read_task (some (as_read t)) (fields_bytes (reply_fields (some t)))
    go map_task e = rw e (
        >>=-Reads read_int _ (read_int-Reads (pos 1) (omega arith)) (
          >>=-Reads read_string _ (read_string-Reads t.task_id h.id_fits) (
            >>=-Reads read_int _ (read_int-Reads (pos 0) (omega arith)) (
              >>=-Reads read_int _ (read_int-Reads t.partition h.partition_fits)
                (map-Reads (read_map_task t.task_id t.partition) some (read_map_task-Reads t h))))))
    go reduce_task e = rw e (
        >>=-Reads read_int _ (read_int-Reads (pos 1) (omega arith)) (
          >>=-Reads read_string _ (read_string-Reads t.task_id h.id_fits) (
            >>=-Reads read_int _ (read_int-Reads (pos 1) (omega arith)) (
              >>=-Reads read_int _ (read_int-Reads t.partition h.partition_fits) (
                map-Reads (read_reduce_task t.task_id t.partition) some
                  (read_reduce_task-Reads t h))))))

location_fields-IsFit :
    (ls : List MapOutputLocation) → All IsFitLocation ls → All IsFit (location_fields ls)
location_fields-IsFit [] h = tt
location_fields-IsFit (l ∷ ls) ((hi, hh, hp, hq), h) =
    (hi, (hh, (hp, (hq, location_fields-IsFit ls h))))

reply_fields-IsFit : (t : Task) → IsFitTask t → All IsFit (reply_fields (some t))
unfolding reply_fields
reply_fields-IsFit t h = go t.task_type refl
  where
    go : (k : TaskType) → t.task_type ≡ k → All IsFit (reply_fields (some t))
    go map_task e = rw e (
      omega arith,
      (
        h.id_fits,
        (omega arith, (h.partition_fits, (h.input_fits, (omega arith, (omega arith, tt))))),
      ),
    )
    go reduce_task e = rw e (
      omega arith,
      (
        h.id_fits,
        (
          omega arith,
          (
            h.partition_fits,
            (
              omega arith,
              (
                h.output_fits,
                (
                  subst IsInt32 (sym (wrap32_of_lt (length t.map_outputs) h.count_fits))
                      h.count_fits,
                  location_fields-IsFit t.map_outputs h.locations_fit,
                ),
              ),
            ),
          ),
        ),
      ),
    )

-- If the values fit their C++ types, the reply of the JobTracker to a poll is read by the TaskTracker as the task that was handed out,
-- with the fields that its type needs, up to its last byte.
pub read_task-reply :
    (t : Task)
    → IsFitTask t
    → length (write_fields [] (reply_fields (some t))) < 2 ^ 63
    → read_task (reset (write_fields [] (reply_fields (some t))))
      ≡ ok (
        some (as_read t),
        record {
          contents = write_fields [] (reply_fields (some t));
          position = length (write_fields [] (reply_fields (some t)));
        },
      )
read_task-reply t h small =
    read_message read_task (some (as_read t)) (reply_fields (some t)) (reply_fields-IsFit t h) small
      (read_task-Reads t h)
