-- ===== src/Mapred/DistJobTracker/Schedule.antt =====
-- The polls and the completions of one job in any order, and which tasks they hand out.
use mini_hadoop.Common.{
  ℕ, zero, Bool, ◌&&◌, suc, ◌≡◌, true, false, List, [], ◌∷◌, Option, none, some,
}
use mini_hadoop.Common.Int.{ℤ, pos, ltb_ℤ}
use mini_hadoop.Common.Text.{Bytes}
use mini_hadoop.Common.Back.{pop_back}
use mini_hadoop.Mapred.DistJobTracker.{
  new_reduce_task, DistJobTracker, Task, poll_for_task, finish, map_completed, reduce_completed,
  maps_done,
}

-- A poll of a TaskTracker; the report of the map task, or the reduce task, at a position of the list
-- of those that were handed out, with the partitions and the address that it sends.
pub data Event : Type 0 where
  poll : Event
  map_done : ℕ → ℤ → Bytes → ℤ → Event
  reduce_done : ℕ → Event

-- A task that was handed out, and whether it was reported.
abbrev pub HandedOut : Type 0
HandedOut = Task × Bool

-- The JobTracker, with the tasks of each type that it has handed out, the latest first.
pub record History : Type 0 where
  pub tracker : DistJobTracker
  pub handed_maps : List HandedOut
  pub handed_reduces : List HandedOut

abbrev pub given : Option Task → List HandedOut → List HandedOut
given none ts = ts
given (some t) ts = (t, false) ∷ ts

-- The task at the position, if it is there and was not reported yet, and the list with its report.
abbrev pub report : ℕ → List HandedOut → Option (Task × List HandedOut)
report i [] = none
report zero ((t, true) ∷ ts) = none
report zero ((t, false) ∷ ts) = some (t, (t, true) ∷ ts)
report (suc i) (x ∷ ts) = elim (report i ts) [ none ↦ none | some (t, ts') ↦ some (t, x ∷ ts') ]

-- A poll hands out a map task while there is one to pop. A TaskTracker reports only a task that it
-- was given, once.
abbrev pub step : Event → History → History
step poll h = elim (pop_back h.tracker.pending_maps) [
  | some _ ↦ record h {
    tracker = (poll_for_task h.tracker).0;
    handed_maps = given (poll_for_task h.tracker).1 h.handed_maps;
  }
  | none ↦ record h {
    tracker = (poll_for_task h.tracker).0;
    handed_reduces = given (poll_for_task h.tracker).1 h.handed_reduces;
  }
]
step (map_done i parts host port) h = elim (report i h.handed_maps) [
  | none ↦ h
  | some (t, ts) ↦ record h {
    tracker = map_completed t.task_id parts host port h.tracker;
    handed_maps = ts;
  }
]
step (reduce_done i) h = elim (report i h.handed_reduces) [
  | none ↦ h
  | some (t, ts) ↦ record h { tracker = reduce_completed h.tracker; handed_reduces = ts }
]

abbrev pub run : List Event → History → History
run [] h = h
run (e ∷ es) h = run es (step e h)

-- What a poll does, by the tasks that are pending.
module _ (s : DistJobTracker) where
  pub poll_for_task-maps :
      (rest : List Task) (t : Task)
      → pop_back s.pending_maps ≡ some (rest, t)
      → poll_for_task s ≡ (record s { pending_maps = rest }, some t)
  unfolding poll_for_task
  poll_for_task-maps rest t e = rw (e, poll_for_task)

  pub poll_for_task-creates :
      pop_back s.pending_maps ≡ none
      → s.pending_reduces ≡ []
      → (maps_done s && ltb_ℤ (pos s.pending_reduces_created) s.num_reduces) ≡ true
      → poll_for_task s ≡ (
        record s { pending_reduces_created = suc s.pending_reduces_created; pending_reduces = [] },
        some (
            new_reduce_task s.job_id s.output_path s.map_output_locations
              s.pending_reduces_created),
      )
  unfolding poll_for_task pop_back
  poll_for_task-creates e k f = rw (e, poll_for_task, f, k)

  pub poll_for_task-finish :
      pop_back s.pending_maps ≡ none
      → s.pending_reduces ≡ []
      → (maps_done s && ltb_ℤ (pos s.pending_reduces_created) s.num_reduces) ≡ false
      → poll_for_task s ≡ (finish s, none)
  unfolding poll_for_task pop_back
  poll_for_task-finish e k f = rw (e, poll_for_task, f, k)
