-- ===== src/Mapred/JobTracker/Counting.antt =====
-- What `RunJob` computes with the reducer of the word count.
use mini_hadoop.Common.{
  ℕ, zero, suc, ◌<◌, ◌^◌, ◌≡◌, refl, sym, ap, ap₂, ◌∙◌, Bool, true, false, List, [], ◌∷◌, ◌++◌,
  append-nil, arith, replicate,
}
use mini_hadoop.Common.Int.{ℤ, pos_part, neg_part}
use mini_hadoop.Common.Text.{Bytes}
use mini_hadoop.Mapred.JobTracker.{
  MapOutput, get_partition, map_phase, sort, key_less, pair_less, group, reduce_groups,
  word_count_reduce, prepare, reduce_phase, run_job,
}
use mini_hadoop.Mapred.JobTracker.Partitions.{
  flatten, map_outputs, Lack, Only, map_phase-Only_home, map_phase-SameBag,
}
use mini_hadoop.Mapred.JobTracker.Sorting.{sort-IsSorted}
use mini_hadoop.Mapred.JobTracker.Sums.{
  combined-IsSorted, values_of-reduced, combine-eq-reduce_groups,
}
use mini_hadoop.Mapred.JobTracker.Tally.{
  values_of, values_of-append, weigh, total, AllCounts, summary, SameBag, summary-SameBag,
  SameBag-summary, summary-summary, total-summary, summary-AllCounts, sort-SameBag,
}

-- The sum of the values of the key can be written as an int64_t, and none of them is negative.
abbrev pub IsCountable : List ℤ → Type 0
IsCountable vs = AllCounts vs × (total vs < 2 ^ 63)

pub IsCountable-SameBag : (vs ws : List ℤ) → SameBag vs ws → IsCountable ws → IsCountable vs
IsCountable-SameBag vs ws h (counts, bound) = (h neg_part ∙ counts, rw (h pos_part) bound)

-- One partition, with and without the combiner.
reduced_partition :
    (key : Bytes) (combining : Bool) (part : List MapOutput)
    → IsCountable (values_of key part)
    → values_of key (reduce_groups word_count_reduce (group (prepare combining part)))
      ≡ summary (values_of key part)
reduced_partition key false part h =
    let sorted = sort key_less part in
    let same = sort-SameBag key key_less part in
    let (counts, bound) = IsCountable-SameBag (values_of key sorted) (values_of key part) same h in
    values_of-reduced key sorted (sort-IsSorted part) counts bound
    ∙ summary-SameBag (values_of key sorted) (values_of key part) same
reduced_partition key true part h =
    let sorted = sort key_less part in
    let same = sort-SameBag key key_less part in
    let (counts, bound) = IsCountable-SameBag (values_of key sorted) (values_of key part) same h in
    let combined = reduce_groups word_count_reduce (group sorted) in
    let once : values_of key combined ≡ summary (values_of key sorted) =
      values_of-reduced key sorted (sort-IsSorted part) counts bound in
    ap (λ (p : List MapOutput). values_of key (reduce_groups word_count_reduce (group p)))
      (combine-eq-reduce_groups (group sorted))
    ∙ values_of-reduced key combined (combined-IsSorted sorted (sort-IsSorted part))
        (rw once (summary-AllCounts (values_of key sorted)))
        (rw (once, total-summary (values_of key sorted)) bound)
    ∙ ap summary once
    ∙ summary-summary (values_of key sorted)
    ∙ summary-SameBag (values_of key sorted) (values_of key part) same

no_values :
    (key : Bytes) (combining : Bool) (part : List MapOutput)
    → values_of key part ≡ []
    → values_of key (reduce_groups word_count_reduce (group (prepare combining part))) ≡ []
no_values key combining part e =
    reduced_partition key combining part (rw e (refl, omega arith)) ∙ ap summary e

reduce_phase-Lack :
    (key : Bytes) (combining : Bool) (parts : List (List MapOutput))
    → Lack key parts
    → (values_of key (reduce_phase word_count_reduce combining parts) ≡ [])
      × (values_of key (flatten parts) ≡ [])
reduce_phase-Lack key combining [] h = (refl, refl)
reduce_phase-Lack key combining (part ∷ parts) (hp, h) =
    let (reduced, flat) = reduce_phase-Lack key combining parts h in
    (
      values_of-append key (reduce_groups word_count_reduce (group (prepare combining part)))
            (reduce_phase word_count_reduce combining parts)
          ∙ ap₂ ◌++◌ (no_values key combining part hp) reduced,
      values_of-append key part (flatten parts) ∙ ap₂ ◌++◌ hp flat,
    )

-- All partitions, if one has the outputs of the key.
reduce_phase_lem :
    (key : Bytes) (combining : Bool) (p : ℕ) (parts : List (List MapOutput))
    → Only key p parts
    → IsCountable (values_of key (flatten parts))
    → values_of key (reduce_phase word_count_reduce combining parts)
      ≡ summary (values_of key (flatten parts))
reduce_phase_lem key combining p [] o h = refl
reduce_phase_lem key combining zero (part ∷ parts) o h =
    let (reduced, flat) = reduce_phase-Lack key combining parts o in
    let only : values_of key (flatten (part ∷ parts)) ≡ values_of key part =
      values_of-append key part (flatten parts)
      ∙ ap (◌++◌ (values_of key part)) flat
      ∙ append-nil (values_of key part) in
    values_of-append key (reduce_groups word_count_reduce (group (prepare combining part)))
      (reduce_phase word_count_reduce combining parts)
    ∙ ap₂ ◌++◌ (reduced_partition key combining part (rw only at h)) reduced
    ∙ append-nil (summary (values_of key part))
    ∙ ap summary (sym only)
reduce_phase_lem key combining (suc p) (part ∷ parts) (hp, o) h =
    let only : values_of key (flatten (part ∷ parts)) ≡ values_of key (flatten parts) =
      values_of-append key part (flatten parts)
      ∙ ap (λ (vs : List ℤ). vs ++ values_of key (flatten parts)) hp in
    values_of-append key (reduce_groups word_count_reduce (group (prepare combining part)))
      (reduce_phase word_count_reduce combining parts)
    ∙ ap₂ ◌++◌ (no_values key combining part hp)
        (reduce_phase_lem key combining p parts o (rw only at h))
    ∙ ap summary (sym only)

-- With the reducer of the word count, any mapper and hash, at least one reduce task, and with or
-- without the combiner: if the mapper collects no negative value for a key and the sum of its values
-- is below 2^63, the results have one entry for the key, which is that sum, or none if nothing was
-- collected for it.
pub run_job-sums :
    (hash : Bytes → ℕ) (mapper : ℤ → Bytes → List MapOutput) (combining : Bool) (n : ℕ)
    (lines : List (ℤ × Bytes)) (key : Bytes)
    → 0 < n
    → AllCounts (values_of key (map_outputs mapper lines))
    → total (values_of key (map_outputs mapper lines)) < 2 ^ 63
    → values_of key (run_job hash mapper word_count_reduce combining n lines)
      ≡ summary (values_of key (map_outputs mapper lines))
unfolding run_job
run_job-sums hash mapper combining n lines key positive counts bound =
    let parts = map_phase hash mapper n lines (replicate n []) in
    let collected = values_of key (map_outputs mapper lines) in
    let same : SameBag (values_of key (flatten parts)) collected =
      λ w. map_phase-SameBag hash mapper key n lines w positive in
    let reduced = reduce_phase word_count_reduce combining parts in
    let sums : values_of key reduced ≡ summary collected =
      reduce_phase_lem key combining (get_partition hash key n) parts
        (map_phase-Only_home hash mapper key n lines)
        (IsCountable-SameBag (values_of key (flatten parts)) collected same (counts, bound))
      ∙ summary-SameBag (values_of key (flatten parts)) collected same in
    SameBag-summary (values_of key (sort pair_less reduced)) collected
      (λ w. sort-SameBag key pair_less reduced w ∙ ap (weigh w) sums)
