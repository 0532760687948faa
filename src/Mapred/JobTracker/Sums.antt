-- ===== src/Mapred/JobTracker/Sums.antt =====
-- The sums that the reducer of the word count, and the combiner, make of the groups of a sorted
-- partition.
use mini_hadoop.Common.{
  ℕ, zero, suc, ◌+◌, ◌<◌, ◌^◌, ◌≡◌, refl, ap, subst, ◌∙◌, true, false, List, [], ◌∷◌, ◌++◌,
  append-nil, arith, if◌then◌else◌, Bool-cases, inl, inr, All, length,
}
use mini_hadoop.Common.Int.{ℤ, pos, negsuc, wrap64, ◌+ℤ◌, of_u64-to_u64, eqb_ℤ, eqb_ℤ_iff}
use mini_hadoop.Common.Text.{Bytes, str_eq, str_eq_iff}
use mini_hadoop.Io.Writables.Utf8Order.{compare_to, compare_to-utf8}
use mini_hadoop.Mapred.JobTracker.{
  MapOutput, take_values, group_loop, group, sum_values, combine, reduce_groups, word_count_reduce,
}
use mini_hadoop.Mapred.JobTracker.Grouping.{outputs_of, ungroup, ungroup-group}
use mini_hadoop.Mapred.JobTracker.Sorting.{
  AtLeast, IsSorted, take_values-All, take_values-IsSorted, take_values-apart,
}
use mini_hadoop.Mapred.JobTracker.Tally.{values_of, values_of-append, total, AllCounts, summary}

sum_values-total :
    (vs : List ℤ) (a : ℕ)
    → AllCounts vs
    → a + total vs < 2 ^ 63
    → sum_values vs (pos a) ≡ pos (a + total vs)
sum_values-total [] a h k = ap pos (omega arith)
sum_values-total (negsuc n ∷ vs) a h k = absurd (omega (arith, h))
sum_values-total (pos n ∷ vs) a h k =
    ap (sum_values vs) (
      let sum : pos a +ℤ pos n ≡ pos (a + n) = ground arith in
      ap wrap64 sum ∙ of_u64-to_u64 (pos (a + n)) (omega (arith, k)))
    ∙ sum_values-total vs (a + n) (omega (arith, h)) (omega (arith, k))
    ∙ ap pos (omega arith)

pub values_of-outputs_of :
    (key k : Bytes) (vs : List ℤ)
    → values_of key (outputs_of k vs) ≡ (if str_eq k key then vs else [])
values_of-outputs_of key k [] = ground arith
values_of-outputs_of key k (v ∷ vs) = ground (arith, values_of-outputs_of key k vs)

-- No group of the key.
abbrev pub Lacks : Bytes → List (Bytes × List ℤ) → Type 0
Lacks key = All (λ g. str_eq g.0 key ≡ false)

abbrev pub KeysApart : List (Bytes × List ℤ) → Type 0
KeysApart [] = Unit
KeysApart ((k, _) ∷ gs) = Lacks k gs × KeysApart gs

abbrev pub NonEmpty : List ℤ → Type 0
NonEmpty [] = ⊥
NonEmpty (v ∷ vs) = Unit

ungroup-Lacks :
    (key : Bytes) (gs : List (Bytes × List ℤ)) → Lacks key gs → values_of key (ungroup gs) ≡ []
ungroup-Lacks key [] h = refl
ungroup-Lacks key ((k, vs) ∷ gs) (hk, h) =
    values_of-append key (outputs_of k vs) (ungroup gs)
    ∙ rw (values_of-outputs_of key k vs, hk) (ungroup-Lacks key gs h)

reduce_groups-Lacks :
    (key : Bytes) (gs : List (Bytes × List ℤ))
    → Lacks key gs
    → values_of key (reduce_groups word_count_reduce gs) ≡ []
unfolding word_count_reduce
reduce_groups-Lacks key [] h = refl
reduce_groups-Lacks key ((k, vs) ∷ gs) (hk, h) = rw hk (reduce_groups-Lacks key gs h)

sum_one_group :
    (vs : List ℤ)
    → NonEmpty vs
    → AllCounts vs
    → total vs < 2 ^ 63
    → sum_values vs (pos 0) ∷ [] ≡ summary vs
sum_one_group [] n h k = absurd n
sum_one_group (v ∷ vs) n h k =
    ap (λ (x : ℤ). x ∷ []) (sum_values-total (v ∷ vs) 0 h (omega (arith, k)) ∙ ap pos (omega arith))

pub values_of-reduce_groups :
    (key : Bytes) (gs : List (Bytes × List ℤ))
    → KeysApart gs
    → All (λ g. NonEmpty g.1) gs
    → AllCounts (values_of key (ungroup gs))
    → total (values_of key (ungroup gs)) < 2 ^ 63
    → values_of key (reduce_groups word_count_reduce gs) ≡ summary (values_of key (ungroup gs))
unfolding word_count_reduce
values_of-reduce_groups key [] a n h k = refl
values_of-reduce_groups key ((k, vs) ∷ gs) (apart, a) (nv, n) counts bound =
    let split : values_of key (ungroup ((k, vs) ∷ gs))
        ≡ (if str_eq k key then vs else []) ++ values_of key (ungroup gs) =
      values_of-append key (outputs_of k vs) (ungroup gs)
      ∙ ap (λ (us : List ℤ). us ++ values_of key (ungroup gs)) (values_of-outputs_of key k vs) in
    elim (Bool-cases (str_eq k key)) [
      | inl e ↦
          let lacks : Lacks key gs =
            subst (λ (i : Bytes). Lacks i gs) ((str_eq_iff k key).0 e) apart in
          let only : values_of key (ungroup ((k, vs) ∷ gs)) ≡ vs =
            split ∙ rw (e, ungroup-Lacks key gs lacks) (append-nil vs) in
          rw (only, e, reduce_groups-Lacks key gs lacks)
            (sum_one_group vs nv (rw only at counts) (rw only at bound))
      | inr e ↦
          let only : values_of key (ungroup ((k, vs) ∷ gs)) ≡ values_of key (ungroup gs) =
            split ∙ rw e refl in
          rw (only, e) (values_of-reduce_groups key gs a n (rw only at counts) (rw only at bound))
    ]

pub combine-eq-reduce_groups :
    (gs : List (Bytes × List ℤ)) → combine gs ≡ reduce_groups word_count_reduce gs
unfolding word_count_reduce
combine-eq-reduce_groups [] = refl
combine-eq-reduce_groups ((k, vs) ∷ gs) =
    ap (◌∷◌ (k, sum_values vs (pos 0))) (combine-eq-reduce_groups gs)

group_loop-All :
    (P : Bytes → Type 0) (fuel : ℕ) (part : List MapOutput)
    → All (λ o. P o.0) part
    → All (λ g. P g.0) (group_loop fuel part)
unfolding group_loop
group_loop-All P zero part h = tt
group_loop-All P (suc fuel) [] h = tt
group_loop-All P (suc fuel) ((k, v) ∷ part) h = (
  h.0,
  group_loop-All P fuel (take_values k ((k, v) ∷ part)).1
      (take_values-All (λ o. P o.0) k ((k, v) ∷ part) h),
)

same_key : (k : Bytes) → eqb_ℤ (compare_to k k) (pos 0) ≡ true
same_key k = (eqb_ℤ_iff (compare_to k k) (pos 0)).1 ((compare_to-utf8 k k).0.1 refl)

first_value :
    (k : Bytes) (v : ℤ) (part : List MapOutput) → NonEmpty (take_values k ((k, v) ∷ part)).0
unfolding take_values
first_value k v part = rw (same_key k) tt

group_loop-NonEmpty :
    (fuel : ℕ) (part : List MapOutput) → All (λ g. NonEmpty g.1) (group_loop fuel part)
unfolding group_loop
group_loop-NonEmpty zero part = tt
group_loop-NonEmpty (suc fuel) [] = tt
group_loop-NonEmpty (suc fuel) ((k, v) ∷ part) =
    (first_value k v part, group_loop-NonEmpty fuel (take_values k ((k, v) ∷ part)).1)

-- Outputs behind those of a key have other keys.
behind :
    (k : Bytes) (v : ℤ) (part : List MapOutput)
    → IsSorted ((k, v) ∷ part)
    → All (λ o. str_eq o.0 k ≡ false) (take_values k ((k, v) ∷ part)).1
unfolding take_values
behind k v part (low, s) = rw (same_key k) (take_values-apart k part s low)

group_loop-KeysApart :
    (fuel : ℕ) (part : List MapOutput) → IsSorted part → KeysApart (group_loop fuel part)
unfolding group_loop
group_loop-KeysApart zero part s = tt
group_loop-KeysApart (suc fuel) [] s = tt
group_loop-KeysApart (suc fuel) ((k, v) ∷ part) s = (
  group_loop-All (λ i. str_eq i k ≡ false) fuel (take_values k ((k, v) ∷ part)).1
      (behind k v part s),
  group_loop-KeysApart fuel (take_values k ((k, v) ∷ part)).1
      (take_values-IsSorted k ((k, v) ∷ part) s),
)

reduce_groups-All :
    (P : Bytes → Type 0) (gs : List (Bytes × List ℤ))
    → All (λ g. P g.0) gs
    → All (λ o. P o.0) (reduce_groups word_count_reduce gs)
unfolding word_count_reduce
reduce_groups-All P [] h = tt
reduce_groups-All P ((k, vs) ∷ gs) (hk, h) = (hk, reduce_groups-All P gs h)

rest_low :
    (k : Bytes) (v : ℤ) (part : List MapOutput)
    → All (λ o. AtLeast k o.0) part
    → All (λ o. AtLeast k o.0) (take_values k ((k, v) ∷ part)).1
unfolding take_values
rest_low k v part low = rw (same_key k) (take_values-All (λ o. AtLeast k o.0) k part low)

reduce_groups-IsSorted :
    (fuel : ℕ) (part : List MapOutput)
    → IsSorted part
    → IsSorted (reduce_groups word_count_reduce (group_loop fuel part))
unfolding group_loop word_count_reduce
reduce_groups-IsSorted zero part s = tt
reduce_groups-IsSorted (suc fuel) [] s = tt
reduce_groups-IsSorted (suc fuel) ((k, v) ∷ part) (low, s) =
    let rest = (take_values k ((k, v) ∷ part)).1 in
    (
      reduce_groups-All (AtLeast k) (group_loop fuel rest)
          (group_loop-All (AtLeast k) fuel rest (rest_low k v part low)),
      reduce_groups-IsSorted fuel rest (take_values-IsSorted k ((k, v) ∷ part) (low, s)),
    )

pub combined-IsSorted :
    (part : List MapOutput)
    → IsSorted part
    → IsSorted (reduce_groups word_count_reduce (group part))
unfolding group
combined-IsSorted part s = reduce_groups-IsSorted (length part) part s

-- The reducer makes one sum of the values of each key in a sorted partition.
pub values_of-reduced :
    (key : Bytes) (part : List MapOutput)
    → IsSorted part
    → AllCounts (values_of key part)
    → total (values_of key part) < 2 ^ 63
    → values_of key (reduce_groups word_count_reduce (group part)) ≡ summary (values_of key part)
values_of-reduced key part s counts bound =
    let whole = ungroup-group part in
    let apart : KeysApart (group part) =
      unfold group in group_loop-KeysApart (length part) part s in
    let some_value : All (λ g. NonEmpty g.1) (group part) =
      unfold group in group_loop-NonEmpty (length part) part in
    values_of-reduce_groups key (group part) apart some_value (rw whole counts) (rw whole bound)
    ∙ ap (λ (p : List MapOutput). summary (values_of key p)) whole
