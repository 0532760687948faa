-- ===== src/Io/Writables/Utf8Order.antt =====
-- `UTF8::CompareTo`, which returns what `std::string::compare` returns; only its sign is specified,
-- and here it is -1, 0 or 1.
use Prim.Native.Nat.{Ordering}
use mini_hadoop.Common.{◌≡◌, arith, ◌↔◌}
use mini_hadoop.Common.Int.{ℤ, pos, negsuc, ◌<ℤ◌}
use mini_hadoop.Common.Text.{Bytes}
use mini_hadoop.Common.Text.Order.{
  str_compare, str_compare-swap, str_compare→eq, str_compare_refl, str_compare_trans,
}

unfoldable pub compare_to : Bytes → Bytes → ℤ
compare_to value other = elim (str_compare value other) [
  | Ordering.lt ↦ negsuc 0
  | Ordering.eq ↦ pos 0
  | Ordering.gt ↦ pos 1
]

-- `CompareTo` is 0 exactly on equal strings, and exchanging the strings exchanges below and above.
pub compare_to-utf8 :
    (a b : Bytes)
    → ((compare_to a b ≡ pos 0) ↔ (a ≡ b)) × ((compare_to a b <ℤ pos 0) ↔ (pos 0 <ℤ compare_to b a))
unfolding compare_to
compare_to-utf8 a b = (
  (λ h. str_compare→eq a b (ground arith), λ e. ground (arith, e, str_compare_refl b)),
  ground (arith, str_compare-swap a b),
)

-- What is below a string that is below a third is below the third.
pub compare_to_trans :
    (a b c : Bytes) → compare_to a b <ℤ pos 0 → compare_to b c <ℤ pos 0 → compare_to a c <ℤ pos 0
unfolding compare_to
compare_to_trans a b c h k = ground (arith, str_compare_trans a b c)
