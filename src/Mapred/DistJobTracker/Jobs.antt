-- ===== src/Mapred/DistJobTracker/Jobs.antt =====
-- One job of src/mapred/dist_job_tracker.h from its submission on.
use mini_hadoop.Common.{ℕ, zero, suc, ◌≡◌, ap, length, refl, List, [], ◌∷◌, append-nil, arith, inl}
use mini_hadoop.Common.Int.{ℤ, IsInt32}
use mini_hadoop.Common.Text.{Bytes}
use mini_hadoop.Mapred.DistJobTracker.{Task, new_tracker, submit_job, rounds, job_001, map_tasks}
use mini_hadoop.Mapred.DistJobTracker.Schedule.{Event, History, step, run}
use mini_hadoop.Mapred.DistJobTracker.Steps.{apply_event-IsScheduled}
use mini_hadoop.Mapred.DistJobTracker.Invariant.{IsScheduled}

-- A new JobTracker after `SubmitJob`.
abbrev pub submitted : Bytes → Bytes → ℤ → ℤ → History
submitted input output maps reduces = record {
  tracker = submit_job input output maps reduces new_tracker;
  handed_maps = [];
  handed_reduces = [];
}

length-map_tasks : (job input : Bytes) (i n : ℕ) → length (map_tasks job input i n) ≡ n
length-map_tasks job input i zero = refl
length-map_tasks job input i (suc n) = ap suc (length-map_tasks job input (suc i) n)

-- From the submission of a job, whose numbers of tasks are ints, to a new JobTracker on, after any
-- polls and reports in any order, in which a TaskTracker reports only a task that it was given, once:
-- the map tasks still pending and those handed out are together the tasks of the job, once each;
-- the partitions of the reduce tasks handed out are 0, 1, … in this order, at most `num_reduces`;
-- the counters, which are ints, are the numbers of the tasks reported; no reduce task was handed out
-- before every map task was handed out and reported; and the job is only done when every map task
-- and every reduce task was handed out and reported.
pub run-IsScheduled :
    (input output : Bytes) (maps reduces : ℤ) (es : List Event)
    → IsInt32 maps
    → IsInt32 reduces
    → IsScheduled
        (map_tasks job_001 input 0 (rounds maps))
        maps
        reduces
        (run es (submitted input output maps reduces))
run-IsScheduled input output maps reduces es fits_maps fits_reduces =
    go es (submitted input output maps reduces) start
  where
    tasks : List Task
    tasks = map_tasks job_001 input 0 (rounds maps)

    start : IsScheduled tasks maps reduces (submitted input output maps reduces)
    start = record {
      same_maps = unfold submit_job in refl;
      same_reduces = unfold submit_job in refl;
      maps_once = unfold submit_job in append-nil tasks;
      none_waiting = unfold submit_job in refl;
      reduces_once = unfold submit_job in refl;
      reduces_bounded = unfold submit_job in omega arith;
      maps_counted = unfold submit_job in refl;
      reduces_counted = unfold submit_job in refl;
      maps_first = inl refl;
      done_last = inl (unfold submit_job in refl);
    }

    go :
        (es : List Event) (h : History)
        → IsScheduled tasks maps reduces h
        → IsScheduled tasks maps reduces (run es h)
    go [] h i = i
    go (e ∷ es) h i = go es (step e h) (
        apply_event-IsScheduled tasks maps reduces (length-map_tasks job_001 input 0 (rounds maps))
          fits_maps fits_reduces e h i)
