-- ===== src/Mapred/DistJobTracker/Completed.antt =====
-- The reports to src/mapred/dist_job_tracker.h, and the order of the tasks of a job.
use mini_hadoop.Common.{
  ◌^◌, ◌<◌, ◌+◌, length, length-append, length-map, All, ℕ, suc, ◌≤◌, ◌≡◌, sym, ap, subst, ◌∙◌,
  true, false, List, [], map, some, arith, Option-cases, inl, inr,
}
use mini_hadoop.Common.Int.{ℤ, pos, ltb_ℤ, ◌+ℤ◌, wrap32, IsInt32}
use mini_hadoop.Common.Text.{Bytes}
use mini_hadoop.Mapred.DistJobTracker.{
  Task, rounds, map_completed, reduce_completed, maps_done, reduces_done,
}
use mini_hadoop.Mapred.DistJobTracker.Schedule.{
  map_done, reduce_done, History, HandedOut, report, step,
}
use mini_hadoop.Mapred.DistJobTracker.HandedOut.{
  task, IsReported, reported, reported_le, reported-All, report-none, report-reported,
}
use mini_hadoop.Mapred.DistJobTracker.Invariant.{
  down, IsScheduled, length-down, counter_step, rounds_small, reached,
}

module _ (tasks : List Task) (maps reduces : ℤ) (counted : length tasks ≡ rounds maps)
    (fits_maps : IsInt32 maps) (fits_reduces : IsInt32 reduces) (h : History)
    (i : IsScheduled tasks maps reduces h) where
  maps_handed : length h.tracker.pending_maps + length h.handed_maps ≡ rounds maps
  maps_handed =
      let whole = ap length i.maps_once in
      omega (
        arith,
        whole,
        counted,
        length-append h.tracker.pending_maps (map task h.handed_maps),
        length-map task h.handed_maps,
      )

  reduces_handed : length h.handed_reduces ≡ h.tracker.pending_reduces_created
  reduces_handed =
      let whole = ap length i.reduces_once in
      omega (
        arith,
        whole,
        length-map task h.handed_reduces,
        length-map (λ (t : Task). t.partition) (map task h.handed_reduces),
        length-map pos (down h.tracker.pending_reduces_created),
        length-down h.tracker.pending_reduces_created,
      )

  pub all_maps :
      h.tracker.pending_maps ≡ [] → maps_done h.tracker ≡ true → All IsReported h.handed_maps
  all_maps e d =
      let none_left = ap length e in
      let below : ltb_ℤ (pos (reported h.handed_maps)) maps ≡ false =
        subst (λ (k : ℤ). ltb_ℤ (pos (reported h.handed_maps)) k ≡ false) i.same_maps
          (subst (λ (n : ℤ). ltb_ℤ n h.tracker.num_maps ≡ false) i.maps_counted (ground arith)) in
      reported-All h.handed_maps
        (omega (arith, maps_handed, none_left, reached (reported h.handed_maps) maps below))

  pub all_reduces :
      rounds reduces ≤ h.tracker.pending_reduces_created
      → reduces_done h.tracker ≡ true
      → All IsReported h.handed_reduces
  all_reduces all d =
      let below : ltb_ℤ (pos (reported h.handed_reduces)) reduces ≡ false =
        subst (λ (k : ℤ). ltb_ℤ (pos (reported h.handed_reduces)) k ≡ false) i.same_reduces
          (subst (λ (n : ℤ). ltb_ℤ n h.tracker.num_reduces ≡ false) i.reduces_counted
            (ground arith)) in
      reported-All h.handed_reduces (
        omega (
          arith,
          reduces_handed,
          i.reduces_bounded,
          reached (reported h.handed_reduces) reduces below,
        ))

  -- Where all were reported, no report is left.
  no_report :
      (j : ℕ) (ts ts' : List HandedOut) (t : Task)
      → All IsReported ts
      → report j ts ≡ some (t, ts')
      → ⊥
  no_report j ts ts' t all e = let none_left = report-none j ts all in cc

  map_report_step :
      (j : ℕ) (t : Task) (ts : List HandedOut) (parts : ℤ) (host : Bytes) (port : ℤ)
      → report j h.handed_maps ≡ some (t, ts)
      → IsScheduled tasks maps reduces (record h {
        tracker = map_completed t.task_id parts host port h.tracker;
        handed_maps = ts;
      })
  unfolding map_completed
  map_report_step j t ts parts host port e =
      let (same, more) = report-reported j h.handed_maps ts t e in
      let same_length = ap length same in
      let small : suc (reported h.handed_maps) < 2 ^ 31 = omega (
        arith,
        more,
        reported_le ts,
        same_length,
        length-map task ts,
        length-map task h.handed_maps,
        maps_handed,
        rounds_small maps fits_maps,
      ) in
      record {
        same_maps = i.same_maps;
        same_reduces = i.same_reduces;
        maps_once = rw same i.maps_once;
        none_waiting = i.none_waiting;
        reduces_once = i.reduces_once;
        reduces_bounded = i.reduces_bounded;
        maps_counted =
            ap (λ (n : ℤ). wrap32 (n +ℤ pos 1)) i.maps_counted
            ∙ counter_step (reported h.handed_maps) small
            ∙ ap pos (sym more);
        reduces_counted = i.reduces_counted;
        maps_first = elim i.maps_first [
          | inl d ↦ inl d
          | inr d ↦ absurd (no_report j h.handed_maps ts t d.1 e)
        ];
        done_last = elim i.done_last [
          | inl d ↦ inl d
          | inr d ↦ absurd (no_report j h.handed_maps ts t d.1 e)
        ];
      }

  reduce_report_step :
      (j : ℕ) (t : Task) (ts : List HandedOut)
      → report j h.handed_reduces ≡ some (t, ts)
      → IsScheduled tasks maps reduces
          (record h { tracker = reduce_completed h.tracker; handed_reduces = ts })
  unfolding reduce_completed
  reduce_report_step j t ts e =
      let (same, more) = report-reported j h.handed_reduces ts t e in
      let same_length = ap length same in
      let small : suc (reported h.handed_reduces) < 2 ^ 31 = omega (
        arith,
        more,
        reported_le ts,
        same_length,
        length-map task ts,
        length-map task h.handed_reduces,
        reduces_handed,
        i.reduces_bounded,
        rounds_small reduces fits_reduces,
      ) in
      record {
        same_maps = i.same_maps;
        same_reduces = i.same_reduces;
        maps_once = i.maps_once;
        none_waiting = i.none_waiting;
        reduces_once = rw same i.reduces_once;
        reduces_bounded = i.reduces_bounded;
        maps_counted = i.maps_counted;
        reduces_counted =
            ap (λ (n : ℤ). wrap32 (n +ℤ pos 1)) i.reduces_counted
            ∙ counter_step (reported h.handed_reduces) small
            ∙ ap pos (sym more);
        maps_first = elim i.maps_first [
          | inl d ↦ absurd (no_report j h.handed_reduces ts t (rw d tt) e)
          | inr d ↦ inr d
        ];
        done_last = elim i.done_last [
          | inl d ↦ inl d
          | inr d ↦ absurd (no_report j h.handed_reduces ts t d.3 e)
        ];
      }

  pub map_done_step :
      (j : ℕ) (parts : ℤ) (host : Bytes) (port : ℤ)
      → IsScheduled tasks maps reduces (step (map_done j parts host port) h)
  map_done_step j parts host port = elim (Option-cases (report j h.handed_maps)) [
    | inl e ↦ rw (step, e) i
    | inr ((t, ts), e) ↦ rw (step, e) (map_report_step j t ts parts host port e)
  ]

  pub reduce_done_step : (j : ℕ) → IsScheduled tasks maps reduces (step (reduce_done j) h)
  reduce_done_step j = elim (Option-cases (report j h.handed_reduces)) [
    | inl e ↦ rw (step, e) i
    | inr ((t, ts), e) ↦ rw (step, e) (reduce_report_step j t ts e)
  ]
