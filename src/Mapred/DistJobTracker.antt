-- ===== src/Mapred/DistJobTracker.antt =====
-- src/mapred/dist_job_tracker.h: the state of the JobTracker and its three handlers. The handlers
-- 1 and 2 hold the mutex. The completion counters are `std::atomic<int>` and wrap around.
-- `pending_reduces_created` counts up to `num_reduces` and is a natural number.
pub mod Handlers
pub mod Schedule
pub mod HandedOut
pub mod Invariant
pub mod Completed
pub mod Steps
pub mod Jobs
mod Examples
use mini_hadoop.Common.{
  ℕ, zero, suc, ◌+◌, ◌/◌, ◌%◌, Bool, true, false, not, ◌&&◌, List, [], ◌∷◌, ◌++◌, Option, none,
  some, ltb, if◌then◌else◌, length, Outcome, ok, throws,
}
use mini_hadoop.Common.Int.{ℤ, pos, negsuc, ltb_ℤ, eqb_ℤ, wrap32, ◌+ℤ◌}
use mini_hadoop.Common.Back.{pop_back}
use mini_hadoop.Common.Decimal.{to_string}
use mini_hadoop.Common.Text.{Bytes}
use mini_hadoop.Io.Buffer.{
  OutputBuffer, InputBuffer, Reader, ◌>>=◌, return, read_int, read_string, write_int,
}
use mini_hadoop.Io.Buffer.Fields.{Field, int, string, write_fields}

pub record MapOutputLocation : Type 0 where
  pub location_task_id : Bytes
  pub host : Bytes
  pub port : ℤ
  pub location_partition : ℤ

pub data TaskType : Type 0 where
  map_task reduce_task : TaskType

-- `static_cast<int>(type)`
abbrev pub type_code : TaskType → ℤ
type_code map_task = pos 0
type_code reduce_task = pos 1

-- `is_speculative` is left out: no code sets or reads it.
pub record Task : Type 0 where
  pub task_id : Bytes
  pub task_job_id : Bytes
  pub task_type : TaskType
  pub partition : ℤ
  pub task_input_path : Bytes
  pub task_output_path : Bytes
  pub map_outputs : List MapOutputLocation

pub data JobState : Type 0 where
  pending running succeeded failed : JobState

pub record DistJobTracker : Type 0 where
  pub job_id : Bytes
  pub input_path : Bytes
  pub output_path : Bytes
  pub num_maps : ℤ
  pub num_reduces : ℤ
  pub maps_completed : ℤ
  pub reduces_completed : ℤ
  pub pending_reduces_created : ℕ
  pub pending_maps : List Task
  pub pending_reduces : List Task
  pub map_output_locations : List MapOutputLocation
  pub job_state : JobState
  pub job_done : Bool

-- `DistJobTracker(...)`
abbrev pub new_tracker : DistJobTracker
new_tracker = record {
  job_id = [];
  input_path = [];
  output_path = [];
  num_maps = pos 0;
  num_reduces = pos 0;
  maps_completed = pos 0;
  reduces_completed = pos 0;
  pending_reduces_created = 0;
  pending_maps = [];
  pending_reduces = [];
  map_output_locations = [];
  job_state = pending;
  job_done = false;
}

-- "job_001"
abbrev pub job_001 : Bytes
job_001 = 106 ∷ 111 ∷ 98 ∷ 95 ∷ 48 ∷ 48 ∷ 49 ∷ []

-- How often `for (int i = 0; i < n; i++)` runs.
abbrev pub rounds : ℤ → ℕ
rounds (pos n) = n
rounds (negsuc n) = 0

-- The task of partition `i`, with "_m_" or "_r_" in its id.
abbrev pub new_map_task : Bytes → Bytes → ℕ → Task
new_map_task job input i = record {
  task_id = job ++ (95 ∷ 109 ∷ 95 ∷ []) ++ to_string i;
  task_job_id = job;
  task_type = map_task;
  partition = pos i;
  task_input_path = input;
  task_output_path = [];
  map_outputs = [];
}

abbrev pub new_reduce_task : Bytes → Bytes → List MapOutputLocation → ℕ → Task
new_reduce_task job output locations r = record {
  task_id = job ++ (95 ∷ 114 ∷ 95 ∷ []) ++ to_string r;
  task_job_id = job;
  task_type = reduce_task;
  partition = pos r;
  task_input_path = [];
  task_output_path = output;
  map_outputs = locations;
}

-- The loop that makes the map tasks, from `i` on.
abbrev pub map_tasks : Bytes → Bytes → ℕ → ℕ → List Task
map_tasks job input i zero = []
map_tasks job input i (suc n) = new_map_task job input i ∷ map_tasks job input (suc i) n

-- Handler 0, after the reads. `pending_reduces_created_`, `pending_reduces_`,
-- `map_output_locations_` and `job_done_` keep what an earlier job left.
unfoldable pub submit_job : Bytes → Bytes → ℤ → ℤ → DistJobTracker → DistJobTracker
submit_job input output maps reduces s = record s {
  job_id = job_001;
  input_path = input;
  output_path = output;
  num_maps = maps;
  num_reduces = reduces;
  maps_completed = pos 0;
  reduces_completed = pos 0;
  job_state = running;
  pending_maps = s.pending_maps ++ map_tasks job_001 input 0 (rounds maps);
}

-- "All maps done?"
abbrev pub maps_done : DistJobTracker → Bool
maps_done s = not (ltb_ℤ s.maps_completed s.num_maps)

abbrev pub reduces_done : DistJobTracker → Bool
reduces_done s = not (ltb_ℤ s.reduces_completed s.num_reduces)

abbrev pub create_reduce : DistJobTracker → DistJobTracker
create_reduce s =
    if maps_done s && ltb_ℤ (pos s.pending_reduces_created) s.num_reduces
    then record s {
      pending_reduces_created = suc s.pending_reduces_created;
      pending_reduces =
          s.pending_reduces
          ++ (new_reduce_task s.job_id s.output_path s.map_output_locations
                s.pending_reduces_created
              ∷ []);
    }
    else s

abbrev pub finish : DistJobTracker → DistJobTracker
finish s =
    if maps_done s && reduces_done s then record s { job_state = succeeded; job_done = true } else s

abbrev pub poll_reduce : DistJobTracker → DistJobTracker × Option Task
poll_reduce s = elim (pop_back s.pending_reduces) [
  | none ↦ (finish s, none)
  | some (rest, t) ↦ (record s { pending_reduces = rest }, some t)
]

-- Handler 1, after the reads: the state, and the task that is handed out.
unfoldable pub poll_for_task : DistJobTracker → DistJobTracker × Option Task
unfolding pop_back
poll_for_task s = elim (pop_back s.pending_maps) [
  | none ↦ poll_reduce (create_reduce s)
  | some (rest, t) ↦ (record s { pending_maps = rest }, some t)
]

abbrev pub part_locations : Bytes → Bytes → ℤ → ℕ → ℕ → List MapOutputLocation
part_locations id host port i zero = []
part_locations id host port i (suc n) =
    record { location_task_id = id; host = host; port = port; location_partition = pos i }
    ∷ part_locations id host port (suc i) n

-- Handler 2, after the reads, for a map task and for any other type.
unfoldable pub map_completed : Bytes → ℤ → Bytes → ℤ → DistJobTracker → DistJobTracker
map_completed id parts host port s = record s {
  map_output_locations = s.map_output_locations ++ part_locations id host port 0 (rounds parts);
  maps_completed = wrap32 (s.maps_completed +ℤ pos 1);
}

unfoldable pub reduce_completed : DistJobTracker → DistJobTracker
reduce_completed s = record s { reduces_completed = wrap32 (s.reduces_completed +ℤ pos 1) }
