-- ===== src/Mapred/DistJobTracker/HandedOut.antt =====
-- The tasks that src/mapred/dist_job_tracker.h has handed out, and how many of them were reported.
use mini_hadoop.Common.{
  ℕ, zero, suc, ◌+◌, ◌≤◌, ◌≡◌, refl, ap, true, false, List, [], ◌∷◌, map, length, none, some, arith,
  All, Option-cases, inl, inr, if◌then◌else◌,
}
use mini_hadoop.Mapred.DistJobTracker.{Task}
use mini_hadoop.Mapred.DistJobTracker.Schedule.{HandedOut, report}

abbrev pub task : HandedOut → Task
task x = x.0

abbrev pub IsReported : HandedOut → Type 0
IsReported x = x.1 ≡ true

abbrev pub reported : List HandedOut → ℕ
reported [] = 0
reported ((t, b) ∷ ts) = (if b then 1 else 0) + reported ts

pub reported_le : (ts : List HandedOut) → reported ts ≤ length ts
reported_le [] = omega arith
reported_le ((t, true) ∷ ts) = omega (arith, reported_le ts)
reported_le ((t, false) ∷ ts) = omega (arith, reported_le ts)

-- If as many were reported as were handed out, each of them was.
pub reported-All : (ts : List HandedOut) → length ts ≤ reported ts → All IsReported ts
reported-All [] h = tt
reported-All ((t, true) ∷ ts) h = (refl, reported-All ts (omega (arith, h)))
reported-All ((t, false) ∷ ts) h = absurd (omega (arith, h, reported_le ts))

-- Then there is nothing left to report.
pub report-none : (i : ℕ) (ts : List HandedOut) → All IsReported ts → report i ts ≡ none
report-none i [] h = refl
report-none zero ((t, true) ∷ ts) h = refl
report-none zero ((t, false) ∷ ts) (h, _) = absurd cc
report-none (suc i) (x ∷ ts) (_, h) = rw (report-none i ts h) refl

-- A report is one more, of one of the tasks.
pub report-reported :
    (i : ℕ) (ts ts' : List HandedOut) (t : Task)
    → report i ts ≡ some (t, ts')
    → (map task ts' ≡ map task ts) × (reported ts' ≡ suc (reported ts))
report-reported i [] ts' t e = absurd cc
report-reported zero ((u, true) ∷ ts) ts' t e = absurd cc
report-reported zero ((u, false) ∷ ts) ts' t e =
    let new : ts' ≡ (u, true) ∷ ts = ground arith in rw new (refl, omega arith)
report-reported (suc i) (x ∷ ts) ts' t e = elim (Option-cases (report i ts)) [
  | inl k ↦ absurd (ground arith)
  | inr ((u, us), k) ↦
      let new : ts' ≡ x ∷ us = ground arith in
      let (same, more) = report-reported i ts us u k in
      rw new (ap (◌∷◌ (task x)) same, omega (arith, more))
]
