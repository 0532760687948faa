-- ===== src/Mapred/JobTracker/Tally.antt =====
-- The values that a list of outputs has for a key, and what is left of them when their order and
-- their number are forgotten.
use mini_hadoop.Common.{
  ℕ, ◌+◌, ◌≡◌, refl, ap, ◌∙◌, Bool, List, [], ◌∷◌, ◌++◌, arith, if◌then◌else◌, Bool-cases, inl, inr,
}
use mini_hadoop.Common.Int.{ℤ, pos, negsuc, pos_part, neg_part}
use mini_hadoop.Common.Text.{Bytes, str_eq}
use mini_hadoop.Mapred.JobTracker.{MapOutput, insert_sorted, sort}

abbrev pub values_of : Bytes → List MapOutput → List ℤ
values_of key [] = []
values_of key ((k, v) ∷ outputs) =
    if str_eq k key then v ∷ values_of key outputs else values_of key outputs

abbrev pub weigh : (ℤ → ℕ) → List ℤ → ℕ
weigh w [] = 0
weigh w (v ∷ vs) = w v + weigh w vs

-- The sum of values that are not negative.
abbrev pub total : List ℤ → ℕ
total = weigh pos_part

-- No value is negative.
abbrev pub AllCounts : List ℤ → Type 0
AllCounts vs = weigh neg_part vs ≡ 0

-- One value, the sum, if there is any.
abbrev pub summary : List ℤ → List ℤ
summary [] = []
summary (v ∷ vs) = pos (total (v ∷ vs)) ∷ []

-- The same values, as often.
abbrev pub SameBag : List ℤ → List ℤ → Type 0
SameBag vs ws = (w : ℤ → ℕ) → weigh w vs ≡ weigh w ws

pub values_of-append :
    (key : Bytes) (xs ys : List MapOutput)
    → values_of key (xs ++ ys) ≡ values_of key xs ++ values_of key ys
values_of-append key [] ys = refl
values_of-append key ((k, v) ∷ xs) ys = elim (Bool-cases (str_eq k key)) [
  | inl e ↦ rw e (ap (◌∷◌ v) (values_of-append key xs ys))
  | inr e ↦ rw e (values_of-append key xs ys)
]

pub weigh-append : (w : ℤ → ℕ) (vs ws : List ℤ) → weigh w (vs ++ ws) ≡ weigh w vs + weigh w ws
weigh-append w [] ws = omega arith
weigh-append w (v ∷ vs) ws = omega (arith, weigh-append w vs ws)

pub summary-SameBag : (vs ws : List ℤ) → SameBag vs ws → summary vs ≡ summary ws
summary-SameBag [] [] h = refl
summary-SameBag [] (w ∷ ws) h = absurd (omega (arith, h (λ _. 1)))
summary-SameBag (v ∷ vs) [] h = absurd (omega (arith, h (λ _. 1)))
summary-SameBag (v ∷ vs) (w ∷ ws) h = ap (λ (n : ℕ). pos n ∷ []) (h pos_part)

-- Values that are, but for their order, a summary are that summary.
pub SameBag-summary : (vs ws : List ℤ) → SameBag vs (summary ws) → vs ≡ summary ws
SameBag-summary [] [] h = refl
SameBag-summary [] (w ∷ ws) h = absurd (omega (arith, h (λ _. 1)))
SameBag-summary (v ∷ vs) [] h = absurd (omega (arith, h (λ _. 1)))
SameBag-summary (v ∷ x ∷ vs) (w ∷ ws) h = absurd (omega (arith, h (λ _. 1)))
SameBag-summary (pos n ∷ []) (w ∷ ws) h = ap (λ (n : ℕ). pos n ∷ []) (omega (arith, h pos_part))
SameBag-summary (negsuc n ∷ []) (w ∷ ws) h = absurd (omega (arith, h neg_part))

pub summary-summary : (vs : List ℤ) → summary (summary vs) ≡ summary vs
summary-summary [] = refl
summary-summary (v ∷ vs) = ap (λ (n : ℕ). pos n ∷ []) (omega arith)

pub total-summary : (vs : List ℤ) → total (summary vs) ≡ total vs
total-summary [] = refl
total-summary (v ∷ vs) = omega arith

pub summary-AllCounts : (vs : List ℤ) → AllCounts (summary vs)
summary-AllCounts [] = refl
summary-AllCounts (v ∷ vs) = refl

weigh-insert_sorted :
    (w : ℤ → ℕ) (key : Bytes) (less : MapOutput → MapOutput → Bool) (x : MapOutput)
    (ys : List MapOutput)
    → weigh w (values_of key (insert_sorted less x ys)) ≡ weigh w (values_of key (x ∷ ys))
weigh-insert_sorted w key less x [] = refl
weigh-insert_sorted w key less (k, v) ((j, u) ∷ ys) = elim (Bool-cases (less (j, u) (k, v))) [
  | inl e ↦ rw e (ground (arith, weigh-insert_sorted w key less (k, v) ys))
  | inr e ↦ rw e refl
]

-- Sorting keeps the values of each key.
pub sort-SameBag :
    (key : Bytes) (less : MapOutput → MapOutput → Bool) (xs : List MapOutput)
    → SameBag (values_of key (sort less xs)) (values_of key xs)
sort-SameBag key less [] w = refl
sort-SameBag key less ((k, v) ∷ xs) w =
    weigh-insert_sorted w key less (k, v) (sort less xs)
    ∙ ground (arith, sort-SameBag key less xs w)
