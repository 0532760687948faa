-- ===== src/Io/Writables/LongWritable.antt =====
-- `LongWritable` of src/io/writable_types.h; its state is the int64_t `value_`.
use mini_hadoop.Common.{◌≡◌, arith, ◌↔◌, if◌then◌else◌}
use mini_hadoop.Common.Int.{ℤ, pos, negsuc, ◌<ℤ◌, ltb_ℤ, eqb_ℤ}
use mini_hadoop.Io.Buffer.{OutputBuffer, Reader, write_long, read_long}

unfoldable pub write : OutputBuffer → ℤ → OutputBuffer
write out value = write_long out value

unfoldable pub read_fields : Reader ℤ
read_fields = read_long

unfoldable pub compare_to : ℤ → ℤ → ℤ
compare_to value other =
    if ltb_ℤ value other then negsuc 0 else if eqb_ℤ value other then pos 0 else pos 1

-- The sign of the result is the order of the values, for all values.
pub compare_to-long :
    (a b : ℤ)
    → ((compare_to a b <ℤ pos 0) ↔ (a <ℤ b))
      × ((compare_to a b ≡ pos 0) ↔ (a ≡ b))
      × ((pos 0 <ℤ compare_to a b) ↔ (b <ℤ a))
unfolding compare_to
compare_to-long (pos a) (pos b) = ground arith
compare_to-long (pos a) (negsuc b) = ground arith
compare_to-long (negsuc a) (pos b) = ground arith
compare_to-long (negsuc a) (negsuc b) = ground arith
