-- ===== src/Mapred/DistJobTracker/Invariant.antt =====
-- What is true of src/mapred/dist_job_tracker.h while it runs one job.
use mini_hadoop.Common.{
  ◌^◌, ◌<◌, length, All, ◌⊎◌, ℕ, zero, suc, ◌≤◌, ◌≡◌, refl, ap, true, false, List, [], ◌∷◌, ◌++◌,
  map, arith,
}
use mini_hadoop.Common.Int.{ℤ, pos, negsuc, ltb_ℤ, ◌+ℤ◌, wrap32, wrap32_of_lt, IsInt32}
use mini_hadoop.Mapred.DistJobTracker.{Task, rounds}
use mini_hadoop.Mapred.DistJobTracker.Schedule.{History}
use mini_hadoop.Mapred.DistJobTracker.HandedOut.{task, IsReported, reported}

-- `n - 1`, …, `0`
abbrev pub down : ℕ → List ℕ
down zero = []
down (suc n) = n ∷ down n

-- What is true of the JobTracker while it runs one job of these map tasks and so many reduces.
pub record IsScheduled (tasks : List Task) (maps reduces : ℤ) (h : History) : Type 0 where
  pub same_maps : h.tracker.num_maps ≡ maps
  pub same_reduces : h.tracker.num_reduces ≡ reduces
  pub maps_once : h.tracker.pending_maps ++ map task h.handed_maps ≡ tasks
  pub none_waiting : h.tracker.pending_reduces ≡ []
  pub reduces_once :
      map (λ t. t.partition) (map task h.handed_reduces)
      ≡ map pos (down h.tracker.pending_reduces_created)
  pub reduces_bounded : h.tracker.pending_reduces_created ≤ rounds reduces
  pub maps_counted : h.tracker.maps_completed ≡ pos (reported h.handed_maps)
  pub reduces_counted : h.tracker.reduces_completed ≡ pos (reported h.handed_reduces)
  pub maps_first :
      (h.handed_reduces ≡ []) ⊎ ((h.tracker.pending_maps ≡ []) × All IsReported h.handed_maps)
  pub done_last :
      (h.tracker.job_done ≡ false)
      ⊎ ((h.tracker.pending_maps ≡ [])
          × All IsReported h.handed_maps
          × (h.tracker.pending_reduces_created ≡ rounds reduces)
          × All IsReported h.handed_reduces)

pub length-down : (n : ℕ) → length (down n) ≡ n
length-down zero = refl
length-down (suc n) = ap suc (length-down n)

-- A counter below its limit does not wrap.
pub counter_step : (n : ℕ) → suc n < 2 ^ 31 → wrap32 (pos n +ℤ pos 1) ≡ pos (suc n)
counter_step n h =
    let next : pos n +ℤ pos 1 ≡ pos (suc n) = ground arith in rw next (wrap32_of_lt (suc n) h)

pub rounds_small : (k : ℤ) → IsInt32 k → rounds k < 2 ^ 31
rounds_small (pos n) h = h
rounds_small (negsuc n) h = omega arith

pub bounded_by : (n : ℕ) (k : ℤ) → ltb_ℤ (pos n) k ≡ true → suc n ≤ rounds k
bounded_by n (pos k) h = ground arith
bounded_by n (negsuc k) h = absurd (ground arith)

pub reached : (n : ℕ) (k : ℤ) → ltb_ℤ (pos n) k ≡ false → rounds k ≤ n
reached n (pos k) h = ground arith
reached n (negsuc k) h = omega arith

pub snoc_not_nil : (ts : List Task) (t : Task) → ts ++ (t ∷ []) ≡ [] → ⊥
snoc_not_nil [] t e = cc
snoc_not_nil (x ∷ ts) t e = cc
