-- ===== src/Mapred/JobTracker/Grouping.antt =====
-- The grouping of a partition in src/mapred/job_tracker.h.
use mini_hadoop.Common.{
  ℕ, zero, suc, ◌≤◌, ◌≡◌, refl, ap, ◌∙◌, true, List, [], ◌∷◌, ◌++◌, length, arith, Bool-cases, inl,
  inr,
}
use mini_hadoop.Common.Int.{ℤ, pos, eqb_ℤ, eqb_ℤ_iff}
use mini_hadoop.Common.Text.{Bytes}
use mini_hadoop.Io.Writables.Utf8Order.{compare_to, compare_to-utf8}
use mini_hadoop.Mapred.JobTracker.{MapOutput, take_values, group_loop, group}

-- The outputs that a group stands for.
abbrev pub outputs_of : Bytes → List ℤ → List MapOutput
outputs_of k [] = []
outputs_of k (v ∷ vs) = (k, v) ∷ outputs_of k vs

abbrev pub ungroup : List (Bytes × List ℤ) → List MapOutput
ungroup [] = []
ungroup ((k, vs) ∷ groups) = outputs_of k vs ++ ungroup groups

take_values-outputs_of :
    (key : Bytes) (part : List MapOutput)
    → outputs_of key (take_values key part).0 ++ (take_values key part).1 ≡ part
unfolding take_values
take_values-outputs_of key [] = refl
take_values-outputs_of key ((k, v) ∷ part) = elim (Bool-cases (eqb_ℤ (compare_to k key) (pos 0))) [
  | inl e ↦
      let same : k ≡ key =
        (compare_to-utf8 k key).0.0 ((eqb_ℤ_iff (compare_to k key) (pos 0)).0 e) in
      rw e (rw same (ap (◌∷◌ (key, v)) (take_values-outputs_of key part)))
  | inr e ↦ rw e refl
]

take_values-length :
    (key : Bytes) (part : List MapOutput) → length (take_values key part).1 ≤ length part
unfolding take_values
take_values-length key [] = omega arith
take_values-length key ((k, v) ∷ part) = ground (arith, take_values-length key part)

-- The first output has the key of its own group.
take_values-first :
    (k : Bytes) (v : ℤ) (part : List MapOutput)
    → (take_values k ((k, v) ∷ part)).1 ≡ (take_values k part).1
unfolding take_values
take_values-first k v part =
    let same : eqb_ℤ (compare_to k k) (pos 0) ≡ true =
      (eqb_ℤ_iff (compare_to k k) (pos 0)).1 ((compare_to-utf8 k k).0.1 refl) in
    rw same refl

group_loop-ungroup :
    (fuel : ℕ) (part : List MapOutput) → length part ≤ fuel → ungroup (group_loop fuel part) ≡ part
unfolding group_loop
group_loop-ungroup zero [] h = refl
group_loop-ungroup zero (x ∷ part) h = absurd (omega arith)
group_loop-ungroup (suc fuel) [] h = refl
group_loop-ungroup (suc fuel) ((k, v) ∷ part) h =
    let all = (k, v) ∷ part in
    let fewer : length (take_values k all).1 ≤ fuel =
      rw (take_values-first k v part) (omega (arith, take_values-length k part)) in
    ap (λ rest. outputs_of k (take_values k all).0 ++ rest)
      (group_loop-ungroup fuel (take_values k all).1 fewer)
    ∙ take_values-outputs_of k all

-- The groups that the reducer is called for are together the partition, in its order: no output is
-- lost, doubled, or filed under another key.
pub ungroup-group : (part : List MapOutput) → ungroup (group part) ≡ part
unfolding group
ungroup-group part = group_loop-ungroup (length part) part (omega arith)
