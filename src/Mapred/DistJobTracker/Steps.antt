-- ===== src/Mapred/DistJobTracker/Steps.antt =====
-- The polls of src/mapred/dist_job_tracker.h, and every message, and the order of the tasks of a job.
use mini_hadoop.Common.{
  length, suc, ◌≤◌, ◌≡◌, refl, sym, ap, subst, ◌∙◌, true, false, ◌&&◌, List, [], ◌∷◌, ◌++◌, map,
  append_assoc, none, some, arith, Option-cases, Bool-cases, inl, inr,
}
use mini_hadoop.Common.Int.{ℤ, pos, ltb_ℤ, IsInt32}
use mini_hadoop.Common.Back.{pop_back, pop_back-none, pop_back-some}
use mini_hadoop.Mapred.DistJobTracker.{
  Task, rounds, new_reduce_task, poll_for_task, finish, maps_done, reduces_done,
}
use mini_hadoop.Mapred.DistJobTracker.Schedule.{
  Event, poll, map_done, reduce_done, History, given, step, poll_for_task-maps,
  poll_for_task-creates, poll_for_task-finish,
}
use mini_hadoop.Mapred.DistJobTracker.HandedOut.{task}
use mini_hadoop.Mapred.DistJobTracker.Invariant.{IsScheduled, bounded_by, reached, snoc_not_nil}
use mini_hadoop.Mapred.DistJobTracker.Completed.{
  all_maps, all_reduces, map_done_step, reduce_done_step,
}

module _ (tasks : List Task) (maps reduces : ℤ) (counted : length tasks ≡ rounds maps)
    (fits_maps : IsInt32 maps) (fits_reduces : IsInt32 reduces) (h : History)
    (i : IsScheduled tasks maps reduces h) where
  poll_map_step :
      (rest : List Task) (t : Task)
      → pop_back h.tracker.pending_maps ≡ some (rest, t)
      → IsScheduled tasks maps reduces (record h {
        tracker = record h.tracker { pending_maps = rest };
        handed_maps = (t, false) ∷ h.handed_maps;
      })
  poll_map_step rest t e =
      let split = pop_back-some h.tracker.pending_maps rest t e in
      record {
        same_maps = i.same_maps;
        same_reduces = i.same_reduces;
        maps_once =
            sym (append_assoc rest (t ∷ []) (map task h.handed_maps))
            ∙ ap (λ ts. ts ++ map task h.handed_maps) (sym split)
            ∙ i.maps_once;
        none_waiting = i.none_waiting;
        reduces_once = i.reduces_once;
        reduces_bounded = i.reduces_bounded;
        maps_counted = i.maps_counted ∙ ap pos (omega arith);
        reduces_counted = i.reduces_counted;
        maps_first = elim i.maps_first [
          | inl d ↦ inl d
          | inr d ↦ absurd (snoc_not_nil rest t (sym split ∙ d.0))
        ];
        done_last = elim i.done_last [
          | inl d ↦ inl d
          | inr d ↦ absurd (snoc_not_nil rest t (sym split ∙ d.0))
        ];
      }

  create_step :
      h.tracker.pending_maps ≡ []
      → (maps_done h.tracker && ltb_ℤ (pos h.tracker.pending_reduces_created) h.tracker.num_reduces)
        ≡ true
      → IsScheduled tasks maps reduces (record h {
        tracker = record h.tracker {
          pending_reduces_created = suc h.tracker.pending_reduces_created;
          pending_reduces = [];
        };
        handed_reduces =
            (
              new_reduce_task h.tracker.job_id h.tracker.output_path h.tracker.map_output_locations
                  h.tracker.pending_reduces_created,
              false,
            )
            ∷ h.handed_reduces;
      })
  create_step no_maps e =
      let early : maps_done h.tracker ≡ true = ground arith in
      let more : suc h.tracker.pending_reduces_created ≤ rounds reduces =
        subst (λ (k : ℤ). suc h.tracker.pending_reduces_created ≤ rounds k) i.same_reduces
          (bounded_by h.tracker.pending_reduces_created h.tracker.num_reduces (ground arith)) in
      record {
        same_maps = i.same_maps;
        same_reduces = i.same_reduces;
        maps_once = i.maps_once;
        none_waiting = refl;
        reduces_once = ap (◌∷◌ (pos h.tracker.pending_reduces_created)) i.reduces_once;
        reduces_bounded = more;
        maps_counted = i.maps_counted;
        reduces_counted = i.reduces_counted ∙ ap pos (omega arith);
        maps_first =
            inr (
              no_maps,
              all_maps tasks maps reduces counted fits_maps fits_reduces h i no_maps early,
            );
        done_last = elim i.done_last [ inl d ↦ inl d | inr d ↦ absurd (omega (arith, d.2, more)) ];
      }

  finish_step :
      pop_back h.tracker.pending_maps ≡ none
      → (maps_done h.tracker && ltb_ℤ (pos h.tracker.pending_reduces_created) h.tracker.num_reduces)
        ≡ false
      → IsScheduled tasks maps reduces (record h { tracker = finish h.tracker })
  finish_step e f = elim (Bool-cases (maps_done h.tracker && reduces_done h.tracker)) [
    | inr g ↦ rw g i
    | inl g ↦
        let early : maps_done h.tracker ≡ true = ground arith in
        let late : reduces_done h.tracker ≡ true = ground arith in
        let all : rounds reduces ≤ h.tracker.pending_reduces_created =
          subst (λ (k : ℤ). rounds k ≤ h.tracker.pending_reduces_created) i.same_reduces
            (reached h.tracker.pending_reduces_created h.tracker.num_reduces (ground arith)) in
        rw g (record {
          same_maps = i.same_maps;
          same_reduces = i.same_reduces;
          maps_once = i.maps_once;
          none_waiting = i.none_waiting;
          reduces_once = i.reduces_once;
          reduces_bounded = i.reduces_bounded;
          maps_counted = i.maps_counted;
          reduces_counted = i.reduces_counted;
          maps_first = i.maps_first;
          done_last = inr (
            pop_back-none h.tracker.pending_maps e,
            all_maps tasks maps reduces counted fits_maps fits_reduces h i
                (pop_back-none h.tracker.pending_maps e) early,
            omega (arith, all, i.reduces_bounded),
            all_reduces tasks maps reduces counted fits_maps fits_reduces h i all late,
          );
        })
  ]

  step_poll-reduce :
      pop_back h.tracker.pending_maps ≡ none
      → step poll h ≡ record h {
        tracker = (poll_for_task h.tracker).0;
        handed_reduces = given (poll_for_task h.tracker).1 h.handed_reduces;
      }
  step_poll-reduce e = rw (e, step)

  step_poll-map :
      (rest : List Task) (t : Task)
      → pop_back h.tracker.pending_maps ≡ some (rest, t)
      → step poll h ≡ record h {
        tracker = (poll_for_task h.tracker).0;
        handed_maps = given (poll_for_task h.tracker).1 h.handed_maps;
      }
  step_poll-map rest t e = rw (e, step)

  poll_step : IsScheduled tasks maps reduces (step poll h)
  poll_step = elim (Option-cases (pop_back h.tracker.pending_maps)) [
    | inr ((rest, t), e) ↦
        rw (step_poll-map rest t e, poll_for_task-maps h.tracker rest t e) (poll_map_step rest t e)
    | inl e ↦
        elim (Bool-cases (
          maps_done h.tracker
          && ltb_ℤ (pos h.tracker.pending_reduces_created) h.tracker.num_reduces)) [
            | inl f ↦
                rw (step_poll-reduce e, poll_for_task-creates h.tracker e i.none_waiting f)
                  (create_step (pop_back-none h.tracker.pending_maps e) f)
            | inr f ↦
                rw (step_poll-reduce e, poll_for_task-finish h.tracker e i.none_waiting f)
                  (finish_step e f)
          ]
  ]

pub apply_event-IsScheduled :
    (tasks : List Task) (maps reduces : ℤ)
    → length tasks ≡ rounds maps
    → IsInt32 maps
    → IsInt32 reduces
    → (e : Event) (h : History) → IsScheduled tasks maps reduces h
    → IsScheduled tasks maps reduces (step e h)
apply_event-IsScheduled tasks maps reduces counted fm fr poll h i =
    poll_step tasks maps reduces counted fm fr h i
apply_event-IsScheduled tasks maps reduces counted fm fr (map_done j parts host port) h i =
    map_done_step tasks maps reduces counted fm fr h i j parts host port
apply_event-IsScheduled tasks maps reduces counted fm fr (reduce_done j) h i =
    reduce_done_step tasks maps reduces counted fm fr h i j
