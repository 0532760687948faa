-- ===== src/Mapred/JobTracker/Partitions.antt =====
-- Where the map phase of src/mapred/job_tracker.h puts the outputs.
use native.Mathlib.Nat.{mod-lt}
use mini_hadoop.Common.{
  ℕ, zero, suc, ◌+◌, ◌<◌, ◌%◌, ◌^◌, ◌≡◌, refl, sym, ap, subst, ◌∙◌, false, List, [], ◌∷◌, ◌++◌,
  append-nil, arith, Bool-cases, inl, inr, All, length, replicate,
}
use mini_hadoop.Common.Int.{ℤ}
use mini_hadoop.Common.Text.{Bytes, str_eq, str_eq_iff}
use mini_hadoop.Mapred.JobTracker.{MapOutput, get_partition, push_at, collect, map_phase}
use mini_hadoop.Mapred.JobTracker.Tally.{values_of, values_of-append, weigh, weigh-append}

abbrev pub flatten : List (List MapOutput) → List MapOutput
flatten [] = []
flatten (part ∷ parts) = part ++ flatten parts

-- All that the mapper collects, in the order of the lines.
abbrev pub map_outputs : (ℤ → Bytes → List MapOutput) → List (ℤ × Bytes) → List MapOutput
map_outputs mapper [] = []
map_outputs mapper ((offset, line) ∷ lines) = mapper offset line ++ map_outputs mapper lines

abbrev pub Lack : Bytes → List (List MapOutput) → Type 0
Lack key = All (λ part. values_of key part ≡ [])

-- Only the partition of the index has outputs of the key.
abbrev pub Only : Bytes → ℕ → List (List MapOutput) → Type 0
Only key p [] = Unit
Only key zero (part ∷ parts) = Lack key parts
Only key (suc p) (part ∷ parts) = (values_of key part ≡ []) × Only key p parts

values_of-push_back :
    (key k : Bytes) (v : ℤ) (part : List MapOutput)
    → str_eq k key ≡ false
    → values_of key (part ++ ((k, v) ∷ [])) ≡ values_of key part
values_of-push_back key k v part e =
    values_of-append key part ((k, v) ∷ []) ∙ rw e (append-nil (values_of key part))

push_at-Lack :
    (key k : Bytes) (v : ℤ) (q : ℕ) (parts : List (List MapOutput))
    → str_eq k key ≡ false
    → Lack key parts
    → Lack key (push_at q (k, v) parts)
push_at-Lack key k v q [] e h = tt
push_at-Lack key k v zero (part ∷ parts) e (hp, h) = (values_of-push_back key k v part e ∙ hp, h)
push_at-Lack key k v (suc q) (part ∷ parts) e (hp, h) = (hp, push_at-Lack key k v q parts e h)

push_at-Only_other :
    (key k : Bytes) (v : ℤ) (p q : ℕ) (parts : List (List MapOutput))
    → str_eq k key ≡ false
    → Only key p parts
    → Only key p (push_at q (k, v) parts)
push_at-Only_other key k v p q [] e h = tt
push_at-Only_other key k v zero zero (part ∷ parts) e h = h
push_at-Only_other key k v zero (suc q) (part ∷ parts) e h = push_at-Lack key k v q parts e h
push_at-Only_other key k v (suc p) zero (part ∷ parts) e (hp, h) =
    (values_of-push_back key k v part e ∙ hp, h)
push_at-Only_other key k v (suc p) (suc q) (part ∷ parts) e (hp, h) =
    (hp, push_at-Only_other key k v p q parts e h)

push_at-Only :
    (key : Bytes) (kv : MapOutput) (p : ℕ) (parts : List (List MapOutput))
    → Only key p parts
    → Only key p (push_at p kv parts)
push_at-Only key kv p [] h = tt
push_at-Only key kv zero (part ∷ parts) h = h
push_at-Only key kv (suc p) (part ∷ parts) (hp, h) = (hp, push_at-Only key kv p parts h)

pub collect-Only :
    (hash : Bytes → ℕ) (key : Bytes) (n : ℕ) (outputs : List MapOutput)
    (parts : List (List MapOutput))
    → Only key (get_partition hash key n) parts
    → Only key (get_partition hash key n) (collect hash n outputs parts)
collect-Only hash key n [] parts h = h
collect-Only hash key n ((k, v) ∷ outputs) parts h =
    collect-Only hash key n outputs (push_at (get_partition hash k n) (k, v) parts)
      (elim (Bool-cases (str_eq k key)) [
        | inl e ↦
            subst
              (λ (i : Bytes).
                Only key (get_partition hash key n) (push_at (get_partition hash i n) (k, v) parts))
              (sym ((str_eq_iff k key).0 e))
              (push_at-Only key (k, v) (get_partition hash key n) parts h)
        | inr e ↦
            push_at-Only_other key k v (get_partition hash key n) (get_partition hash k n) parts e h
      ])

map_phase-Only :
    (hash : Bytes → ℕ) (mapper : ℤ → Bytes → List MapOutput) (key : Bytes) (n : ℕ)
    (lines : List (ℤ × Bytes)) (parts : List (List MapOutput))
    → Only key (get_partition hash key n) parts
    → Only key (get_partition hash key n) (map_phase hash mapper n lines parts)
map_phase-Only hash mapper key n [] parts h = h
map_phase-Only hash mapper key n ((o, line) ∷ lines) parts h =
    map_phase-Only hash mapper key n lines (collect hash n (mapper o line) parts)
      (collect-Only hash key n (mapper o line) parts h)

length-push_at :
    (q : ℕ) (kv : MapOutput) (parts : List (List MapOutput))
    → length (push_at q kv parts) ≡ length parts
length-push_at q kv [] = refl
length-push_at zero kv (part ∷ parts) = refl
length-push_at (suc q) kv (part ∷ parts) = ap suc (length-push_at q kv parts)

length-collect :
    (hash : Bytes → ℕ) (n : ℕ) (outputs : List MapOutput) (parts : List (List MapOutput))
    → length (collect hash n outputs parts) ≡ length parts
length-collect hash n [] parts = refl
length-collect hash n ((k, v) ∷ outputs) parts =
    length-collect hash n outputs (push_at (get_partition hash k n) (k, v) parts)
    ∙ length-push_at (get_partition hash k n) (k, v) parts

module _ (w : ℤ → ℕ) (key : Bytes) where
  abbrev pub weight : List MapOutput → ℕ
  weight outputs = weigh w (values_of key outputs)

  pub weight-append : (xs ys : List MapOutput) → weight (xs ++ ys) ≡ weight xs + weight ys
  weight-append xs ys =
      ap (weigh w) (values_of-append key xs ys)
      ∙ weigh-append w (values_of key xs) (values_of key ys)

  weight-push_at :
      (q : ℕ) (kv : MapOutput) (parts : List (List MapOutput))
      → q < length parts
      → weight (flatten (push_at q kv parts)) ≡ weight (kv ∷ []) + weight (flatten parts)
  weight-push_at q kv [] h = absurd (omega (arith, h))
  weight-push_at zero kv (part ∷ parts) h =
      weight-append (part ++ (kv ∷ [])) (flatten parts)
      ∙ omega (arith, weight-append part (kv ∷ []), weight-append part (flatten parts))
  weight-push_at (suc q) kv (part ∷ parts) h =
      weight-append part (flatten (push_at q kv parts))
      ∙ omega
          (arith, weight-push_at q kv parts (omega (arith, h)), weight-append part (flatten parts))

  module _ (hash : Bytes → ℕ) (n : ℕ) (positive : 0 < n) where
    get_partition-lt : (k : Bytes) → get_partition hash k n < n
    unfolding get_partition
    get_partition-lt k = mod-lt (hash k % 2 ^ 31) positive

    weight-collect :
        (outputs : List MapOutput) (parts : List (List MapOutput))
        → length parts ≡ n
        → weight (flatten (collect hash n outputs parts)) ≡ weight outputs + weight (flatten parts)
    weight-collect [] parts h = omega arith
    weight-collect ((k, v) ∷ outputs) parts h =
        let q = get_partition hash k n in
        let inside : q < length parts = rw h (get_partition-lt k) in
        weight-collect outputs (push_at q (k, v) parts) (length-push_at q (k, v) parts ∙ h)
        ∙ omega (arith, weight-push_at q (k, v) parts inside, weight-append ((k, v) ∷ []) outputs)

    weight-map_phase :
        (mapper : ℤ → Bytes → List MapOutput) (lines : List (ℤ × Bytes))
        (parts : List (List MapOutput))
        → length parts ≡ n
        → weight (flatten (map_phase hash mapper n lines parts))
          ≡ weight (map_outputs mapper lines) + weight (flatten parts)
    weight-map_phase mapper [] parts h = omega arith
    weight-map_phase mapper ((o, line) ∷ lines) parts h =
        weight-map_phase mapper lines (collect hash n (mapper o line) parts)
          (length-collect hash n (mapper o line) parts ∙ h)
        ∙ omega (
          arith,
          weight-collect (mapper o line) parts h,
          weight-append (mapper o line) (map_outputs mapper lines),
        )

no_outputs : (key : Bytes) (n : ℕ) → Lack key (replicate n [])
no_outputs key zero = tt
no_outputs key (suc n) = (refl, no_outputs key n)

Only-replicate : (key : Bytes) (p n : ℕ) → Only key p (replicate n [])
Only-replicate key p zero = tt
Only-replicate key zero (suc n) = no_outputs key n
Only-replicate key (suc p) (suc n) = (refl, Only-replicate key p n)

flatten-replicate : (n : ℕ) → flatten (replicate n []) ≡ []
flatten-replicate zero = refl
flatten-replicate (suc n) = flatten-replicate n

length-replicate : (n : ℕ) → length (replicate {A = List MapOutput} n []) ≡ n
length-replicate zero = refl
length-replicate (suc n) = ap suc (length-replicate n)

-- After the map phase only the partition of a key has outputs of it.
pub map_phase-Only_home :
    (hash : Bytes → ℕ) (mapper : ℤ → Bytes → List MapOutput) (key : Bytes) (n : ℕ)
    (lines : List (ℤ × Bytes))
    → Only key (get_partition hash key n) (map_phase hash mapper n lines (replicate n []))
map_phase-Only_home hash mapper key n lines =
    map_phase-Only hash mapper key n lines (replicate n [])
      (Only-replicate key (get_partition hash key n) n)

-- The partitions hold together what the mapper collected.
pub map_phase-SameBag :
    (hash : Bytes → ℕ) (mapper : ℤ → Bytes → List MapOutput) (key : Bytes) (n : ℕ)
    (lines : List (ℤ × Bytes)) (w : ℤ → ℕ)
    → 0 < n
    → weigh w (values_of key (flatten (map_phase hash mapper n lines (replicate n []))))
      ≡ weigh w (values_of key (map_outputs mapper lines))
map_phase-SameBag hash mapper key n lines w h =
    weight-map_phase w key hash n h mapper lines (replicate n []) (length-replicate n)
    ∙ rw (flatten-replicate n) (omega arith)
