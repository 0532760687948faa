-- ===== src/Common/Text/Order.antt =====
-- `std::string::compare` and `<`: bytes compare as unsigned numbers, and a prefix comes first.
use Prim.Native.Nat.{Ordering}
use mini_hadoop.Common.Text.{Bytes}
use mathlib.Core.Path.{◌≡◌, refl}
use mathlib.Core.Bool.{Bool, true, false}
use mathlib.Core.List.{[], ◌∷◌}
use native.Mathlib.Omega.{arith}
use mini_hadoop.Common.Tests.{ltb, if◌then◌else◌}

unfoldable pub str_compare : Bytes → Bytes → Ordering
str_compare [] [] = Ordering.eq
str_compare [] (b ∷ t) = Ordering.lt
str_compare (a ∷ s) [] = Ordering.gt
str_compare (a ∷ s) (b ∷ t) =
    let rest = str_compare s t in
    if ltb a b then Ordering.lt else if ltb b a then Ordering.gt else rest

abbrev pub swap_order : Ordering → Ordering
swap_order Ordering.lt = Ordering.gt
swap_order Ordering.eq = Ordering.eq
swap_order Ordering.gt = Ordering.lt

abbrev pub str_lt : Bytes → Bytes → Bool
str_lt s t = elim (str_compare s t) [ Ordering.lt ↦ true | _ ↦ false ]

pub str_compare-swap : (s t : Bytes) → str_compare t s ≡ swap_order (str_compare s t)
unfolding str_compare
str_compare-swap [] [] = refl
str_compare-swap [] (b ∷ t) = refl
str_compare-swap (a ∷ s) [] = refl
str_compare-swap (a ∷ s) (b ∷ t) = ground (arith, str_compare-swap s t)

pub str_compare→eq : (s t : Bytes) → str_compare s t ≡ Ordering.eq → s ≡ t
unfolding str_compare
str_compare→eq [] [] h = refl
str_compare→eq [] (b ∷ t) h = cc
str_compare→eq (a ∷ s) [] h = cc
str_compare→eq (a ∷ s) (b ∷ t) h = ground (arith, str_compare→eq s t)

pub str_compare_refl : (s : Bytes) → str_compare s s ≡ Ordering.eq
unfolding str_compare
str_compare_refl [] = refl
str_compare_refl (a ∷ s) = ground (arith, str_compare_refl s)

pub str_compare_trans :
    (s t u : Bytes)
    → str_compare s t ≡ Ordering.lt
    → str_compare t u ≡ Ordering.lt
    → str_compare s u ≡ Ordering.lt
unfolding str_compare
str_compare_trans [] [] u h k = cc
str_compare_trans [] (b ∷ t) [] h k = cc
str_compare_trans [] (b ∷ t) (c ∷ u) h k = refl
str_compare_trans (a ∷ s) [] u h k = cc
str_compare_trans (a ∷ s) (b ∷ t) [] h k = cc
str_compare_trans (a ∷ s) (b ∷ t) (c ∷ u) h k = ground (arith, str_compare_trans s t u)
