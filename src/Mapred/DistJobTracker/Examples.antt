-- ===== src/Mapred/DistJobTracker/Examples.antt =====
-- A concrete job of src/mapred/dist_job_tracker.h: two maps and one reduce.
use mini_hadoop.Common.{◌≡◌, refl, true, arith, List, [], ◌∷◌}
use mini_hadoop.Common.Int.{pos, of_u32, to_u32}
use mini_hadoop.Common.Text.{codes}
use mini_hadoop.Common.Back.{pop_back}
use mini_hadoop.Mapred.DistJobTracker.{
  map_tasks, job_001, submit_job, poll_for_task, map_completed, reduce_completed,
}
use mini_hadoop.Mapred.DistJobTracker.Schedule.{Event, poll, map_done, reduce_done, run}
use mini_hadoop.Mapred.DistJobTracker.Invariant.{IsScheduled}
use mini_hadoop.Mapred.DistJobTracker.Jobs.{submitted, run-IsScheduled}

abbrev events : List Event
events =
    poll
    ∷ poll
    ∷ poll
    ∷ map_done 0 (pos 1) (codes "h") (pos 9)
    ∷ map_done 1 (pos 1) (codes "h") (pos 9)
    ∷ poll
    ∷ reduce_done 0
    ∷ poll
    ∷ []

run-IsScheduled_example :
    IsScheduled
      (map_tasks job_001 (codes "in") 0 2)
      (pos 2)
      (pos 1)
      (run events (submitted (codes "in") (codes "out") (pos 2) (pos 1)))
run-IsScheduled_example =
    run-IsScheduled (codes "in") (codes "out") (pos 2) (pos 1) events (omega arith) (omega arith)

job_ends :
    (run events (submitted (codes "in") (codes "out") (pos 2) (pos 1))).tracker.job_done ≡ true
unfolding submit_job poll_for_task pop_back map_completed reduce_completed of_u32 to_u32
job_ends = refl
