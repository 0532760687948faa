-- ===== src/Mapred/TaskTracker/Groups.antt =====
-- The loops of src/mapred/task_tracker.h and src/mapred/job_tracker.h that group outputs by key.
use mini_hadoop.Common.{
  ℕ, zero, suc, ◌≡◌, refl, sym, ap, ap₂, ◌∙◌, true, List, [], ◌∷◌, arith, length, Bool-cases, inl,
  inr,
}
use mini_hadoop.Common.Int.{ℤ, pos, eqb_ℤ, eqb_ℤ_iff}
use mini_hadoop.Common.Text.{Bytes, str_eq, str_eq_iff}
use mini_hadoop.Io.Writables.Utf8Order.{compare_to, compare_to-utf8}
use mini_hadoop.Mapred.JobTracker.{
  MapOutput, take_values, group_loop, group, reduce_groups, word_count_reduce, sort, pair_less,
}
use mini_hadoop.Mapred.JobTracker.Counting.{IsCountable, IsCountable-SameBag}
use mini_hadoop.Mapred.JobTracker.Sorting.{sort-IsSorted_by, pair_less-OrdersKeys}
use mini_hadoop.Mapred.JobTracker.Sums.{values_of-reduced}
use mini_hadoop.Mapred.JobTracker.Tally.{values_of, summary, summary-SameBag, sort-SameBag}
use mini_hadoop.Mapred.TaskTracker.Execution.{take_same, group_same, reduce_all}

-- The two tests for the same key.
pub tests_agree : (k key : Bytes) → str_eq k key ≡ eqb_ℤ (compare_to k key) (pos 0)
tests_agree k key = elim (Bool-cases (eqb_ℤ (compare_to k key) (pos 0))) [
  | inl e ↦
      (str_eq_iff k key).1
        ((compare_to-utf8 k key).0.0 ((eqb_ℤ_iff (compare_to k key) (pos 0)).0 e))
      ∙ sym e
  | inr e ↦ elim (Bool-cases (str_eq k key)) [
    | inr d ↦ d ∙ sym e
    | inl s ↦
        let zero_here : eqb_ℤ (compare_to k key) (pos 0) ≡ true =
          (eqb_ℤ_iff (compare_to k key) (pos 0)).1
            ((compare_to-utf8 k key).0.1 ((str_eq_iff k key).0 s)) in
        s ∙ sym zero_here
  ]
]

pub take_same-eq-take_values :
    (key : Bytes) (outputs : List MapOutput) → take_same key outputs ≡ take_values key outputs
unfolding take_same take_values
take_same-eq-take_values key [] = refl
take_same-eq-take_values key ((k, v) ∷ outputs) =
    ground (arith, tests_agree k key, take_same-eq-take_values key outputs)

-- The loops of the reduce task group as those of `RunJob` do.
pub group_same-eq-group_loop :
    (fuel : ℕ) (outputs : List MapOutput) → group_same fuel outputs ≡ group_loop fuel outputs
unfolding group_same group_loop
group_same-eq-group_loop zero outputs = refl
group_same-eq-group_loop (suc fuel) [] = refl
group_same-eq-group_loop (suc fuel) ((k, v) ∷ outputs) =
    let same = take_same-eq-take_values k ((k, v) ∷ outputs) in
    ap₂ (λ (vs : List ℤ) (groups : List (Bytes × List ℤ)). (k, vs) ∷ groups)
      (ap (λ (r : List ℤ × List MapOutput). r.0) same)
      (ap (λ (r : List ℤ × List MapOutput). group_same fuel r.1) same
        ∙ group_same-eq-group_loop fuel (take_values k ((k, v) ∷ outputs)).1)

pub values_of-reduce_all :
    (key : Bytes) (outputs : List MapOutput)
    → IsCountable (values_of key outputs)
    → values_of key (reduce_all word_count_reduce outputs) ≡ summary (values_of key outputs)
unfolding reduce_all group
values_of-reduce_all key outputs h =
    let sorted = sort pair_less outputs in
    let same = sort-SameBag key pair_less outputs in
    let (counts, bound) =
      IsCountable-SameBag (values_of key sorted) (values_of key outputs) same h in
    ap (λ (groups : List (Bytes × List ℤ)). values_of key (reduce_groups word_count_reduce groups))
      (group_same-eq-group_loop (length sorted) sorted)
    ∙ values_of-reduced key sorted (sort-IsSorted_by pair_less outputs pair_less-OrdersKeys) counts
        bound
    ∙ summary-SameBag (values_of key sorted) (values_of key outputs) same
