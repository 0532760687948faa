-- ===== src/Mapred/JobTracker/Sorting.antt =====
-- A sorted partition, by the order of its keys.
use mini_hadoop.Common.{
  ◌≡◌, Bool, true, false, List, [], ◌∷◌, arith, Bool-cases, inl, inr, All, All-weaken,
}
use mini_hadoop.Common.Int.{pos, eqb_ℤ}
use mini_hadoop.Common.Text.{Bytes, str_eq, str_eq_iff}
use mini_hadoop.Common.Text.Order.{str_compare-swap, str_compare→eq, str_compare_trans}
use mini_hadoop.Io.Writables.Utf8Order.{compare_to, compare_to-utf8}
use mini_hadoop.Mapred.JobTracker.{MapOutput, insert_sorted, sort, key_less, pair_less, take_values}

-- The key is not below the other.
abbrev pub AtLeast : Bytes → Bytes → Type 0
AtLeast a b = key_less (b, pos 0) (a, pos 0) ≡ false

abbrev pub IsSorted : List MapOutput → Type 0
IsSorted [] = Unit
IsSorted ((k, _) ∷ xs) = All (λ x. AtLeast k x.0) xs × IsSorted xs

pub AtLeast-trans : (a b c : Bytes) → AtLeast a b → AtLeast b c → AtLeast a c
unfolding compare_to
AtLeast-trans a b c h k = ground (
  arith,
  str_compare_trans c a b,
  str_compare_trans b c a,
  str_compare-swap a b,
  str_compare-swap b c,
  str_compare-swap a c,
  str_compare→eq a b,
  str_compare→eq b c,
  str_compare→eq a c,
)

AtLeast-total : (a b : Bytes) → key_less (a, pos 0) (b, pos 0) ≡ true → AtLeast a b
unfolding compare_to
AtLeast-total a b h = ground (arith, str_compare-swap a b)

insert_sorted-All :
    (P : Bytes → Type 0) (less : MapOutput → MapOutput → Bool) (x : MapOutput) (ys : List MapOutput)
    → P x.0
    → All (λ y. P y.0) ys
    → All (λ y. P y.0) (insert_sorted less x ys)
insert_sorted-All P less x [] h k = (h, tt)
insert_sorted-All P less x (y ∷ ys) h (hy, k) = elim (Bool-cases (less y x)) [
  | inl e ↦ rw e (hy, insert_sorted-All P less x ys h k)
  | inr e ↦ rw e (h, (hy, k))
]

-- The test orders by the keys first.
abbrev pub OrdersKeys : (MapOutput → MapOutput → Bool) → Type 0
OrdersKeys less =
    (x y : MapOutput)
    → ((less x y ≡ true) → AtLeast x.0 y.0) × ((less x y ≡ false) → AtLeast y.0 x.0)

insert_sorted-IsSorted :
    (less : MapOutput → MapOutput → Bool) (x : MapOutput) (ys : List MapOutput)
    → OrdersKeys less
    → IsSorted ys
    → IsSorted (insert_sorted less x ys)
insert_sorted-IsSorted less x [] o h = (tt, tt)
insert_sorted-IsSorted less (k, v) ((j, u) ∷ ys) o (low, h) =
    elim (Bool-cases (less (j, u) (k, v))) [
      | inl e ↦ rw e (
        insert_sorted-All (AtLeast j) less (k, v) ys ((o (j, u) (k, v)).0 e) low,
        insert_sorted-IsSorted less (k, v) ys o h,
      )
      | inr e ↦
          let above : AtLeast k j = (o (j, u) (k, v)).1 e in
          rw e (
            (
              above,
              All-weaken (λ y. AtLeast j y.0) (λ y. AtLeast k y.0) ys
                  (λ y p. AtLeast-trans k j y.0 above p) low,
            ),
            (low, h),
          )
    ]

pub sort-IsSorted_by :
    (less : MapOutput → MapOutput → Bool) (xs : List MapOutput)
    → OrdersKeys less
    → IsSorted (sort less xs)
sort-IsSorted_by less [] o = tt
sort-IsSorted_by less (x ∷ xs) o =
    insert_sorted-IsSorted less x (sort less xs) o (sort-IsSorted_by less xs o)

key_less-OrdersKeys : OrdersKeys key_less
key_less-OrdersKeys (a, v) (b, w) = (AtLeast-total a b, λ e. e)

pub pair_less-OrdersKeys : OrdersKeys pair_less
unfolding compare_to
pair_less-OrdersKeys (a, v) (b, w) =
    (λ e. ground (arith, str_compare-swap a b), λ e. ground (arith, str_compare-swap a b))

pub sort-IsSorted : (xs : List MapOutput) → IsSorted (sort key_less xs)
sort-IsSorted xs = sort-IsSorted_by key_less xs key_less-OrdersKeys

pub AtLeast-antisym : (a b : Bytes) → AtLeast a b → AtLeast b a → a ≡ b
unfolding compare_to
AtLeast-antisym a b h k = ground (arith, str_compare-swap a b, str_compare→eq a b)

differs : (i k : Bytes) → eqb_ℤ (compare_to i k) (pos 0) ≡ false → str_eq i k ≡ false
differs i k e = elim (Bool-cases (str_eq i k)) [
  | inr n ↦ n
  | inl s ↦ absurd (ground (arith, (compare_to-utf8 i k).0.1 ((str_eq_iff i k).0 s)))
]

differs_above :
    (i j k : Bytes) → AtLeast k j → str_eq j k ≡ false → AtLeast j i → str_eq i k ≡ false
differs_above i j k h n p = elim (Bool-cases (str_eq i k)) [
  | inr d ↦ d
  | inl s ↦
      let same : i ≡ k = (str_eq_iff i k).0 s in
      let equal : j ≡ k = AtLeast-antisym j k (rw same at p) h in
      absurd (ground (arith, (str_eq_iff j k).1 equal))
]

-- From the first output with another key on, no output has the key.
pub take_values-apart :
    (k : Bytes) (part : List MapOutput)
    → IsSorted part
    → All (λ o. AtLeast k o.0) part
    → All (λ o. str_eq o.0 k ≡ false) (take_values k part).1
unfolding take_values
take_values-apart k [] s h = tt
take_values-apart k ((j, u) ∷ part) (low, s) (hj, h) =
    elim (Bool-cases (eqb_ℤ (compare_to j k) (pos 0))) [
      | inl e ↦ rw e (take_values-apart k part s h)
      | inr e ↦ rw e (
        differs j k e,
        All-weaken (λ o. AtLeast j o.0) (λ o. str_eq o.0 k ≡ false) part
            (λ o p. differs_above o.0 j k hj (differs j k e) p) low,
      )
    ]

pub take_values-All :
    (P : MapOutput → Type 0) (k : Bytes) (part : List MapOutput)
    → All P part
    → All P (take_values k part).1
unfolding take_values
take_values-All P k [] h = tt
take_values-All P k ((j, u) ∷ part) (hj, h) = elim (Bool-cases (eqb_ℤ (compare_to j k) (pos 0))) [
  | inl e ↦ rw e (take_values-All P k part h)
  | inr e ↦ rw e (hj, h)
]

pub take_values-IsSorted :
    (k : Bytes) (part : List MapOutput) → IsSorted part → IsSorted (take_values k part).1
unfolding take_values
take_values-IsSorted k [] s = tt
take_values-IsSorted k ((j, u) ∷ part) (low, s) =
    elim (Bool-cases (eqb_ℤ (compare_to j k) (pos 0))) [
      | inl e ↦ rw e (take_values-IsSorted k part s)
      | inr e ↦ rw e (low, s)
    ]
