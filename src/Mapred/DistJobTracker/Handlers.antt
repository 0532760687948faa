-- ===== src/Mapred/DistJobTracker/Handlers.antt =====
-- The handlers of src/mapred/dist_job_tracker.h: their reads and what they write.
use mini_hadoop.Common.{List, [], ◌∷◌, Option, none, some, if◌then◌else◌, length}
use mini_hadoop.Common.Int.{pos, eqb_ℤ, wrap32}
use mini_hadoop.Common.Text.{Bytes}
use mini_hadoop.Io.Buffer.{OutputBuffer, Reader, ◌>>=◌, return, read_int, read_string, write_int}
use mini_hadoop.Io.Buffer.Fields.{Field, int, string, write_fields}
use mini_hadoop.Mapred.DistJobTracker.{
  MapOutputLocation, type_code, Task, DistJobTracker, submit_job, poll_for_task, map_completed,
  reduce_completed, map_task, reduce_task,
}

abbrev pub location_fields : List MapOutputLocation → List Field
location_fields [] = []
location_fields (l ∷ ls) =
    string l.location_task_id
    ∷ string l.host
    ∷ int l.port
    ∷ int l.location_partition
    ∷ location_fields ls

-- What handler 1 writes. A map task comes from `pending_maps_`, a reduce task from
-- `pending_reduces_`: the `else` branch for a reduce task among the maps is never taken.
unfoldable pub reply_fields : Option Task → List Field
reply_fields none = int (pos 0) ∷ []
reply_fields (some t) =
    int (pos 1)
    ∷ string t.task_id
    ∷ int (type_code t.task_type)
    ∷ int t.partition
    ∷ elim t.task_type [
      | map_task ↦ string t.task_input_path ∷ string [] ∷ string [] ∷ []
      | reduce_task ↦
          string []
          ∷ string t.task_output_path
          ∷ int (wrap32 (pos (length t.map_outputs)))
          ∷ location_fields t.map_outputs
    ]

-- The handlers, with their reads and the reply.
unfoldable pub handle_submit : DistJobTracker → Reader (DistJobTracker × OutputBuffer)
handle_submit s = do
  input ← read_string
  output ← read_string
  maps ← read_int
  reduces ← read_int
  return (submit_job input output maps reduces s, write_int [] (pos 1))

unfoldable pub handle_poll : DistJobTracker → Reader (DistJobTracker × OutputBuffer)
handle_poll s = do
  host ← read_string
  port ← read_int
  return ((poll_for_task s).0, write_fields [] (reply_fields (poll_for_task s).1))

abbrev pub handle_map_completed : Bytes → DistJobTracker → Reader (DistJobTracker × OutputBuffer)
handle_map_completed id s = do
  parts ← read_int
  host ← read_string
  port ← read_int
  return (map_completed id parts host port s, write_int [] (pos 1))

unfoldable pub handle_completed : DistJobTracker → Reader (DistJobTracker × OutputBuffer)
handle_completed s = do
  id ← read_string
  code ← read_int
  (if eqb_ℤ code (pos 0)
      then handle_map_completed id s
      else return (reduce_completed s, write_int [] (pos 1)))
