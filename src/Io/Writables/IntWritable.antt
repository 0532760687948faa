-- ===== src/Io/Writables/IntWritable.antt =====
-- `IntWritable` of src/io/writable_types.h; its state is the int32_t `value_`.
use mini_hadoop.Common.{◌^◌, ◌≡◌, arith, ◌↔◌}
use mini_hadoop.Common.Int.{ℤ, pos, negsuc, ◌-ℤ◌, ◌<ℤ◌, ◌≤ℤ◌, wrap32, to_u32, of_u32, IsInt32}
use mini_hadoop.Io.Buffer.{OutputBuffer, Reader, write_int, read_int}

unfoldable pub write : OutputBuffer → ℤ → OutputBuffer
write out value = write_int out value

unfoldable pub read_fields : Reader ℤ
read_fields = read_int

-- `value_ - o.value_` in 32 bits. The wrapped result is what two's complement hardware gives; the
-- C++ standard leaves an overflow undefined.
unfoldable pub compare_to : ℤ → ℤ → ℤ
compare_to value other = wrap32 (value -ℤ other)

-- Where the difference fits, the sign of the result is the order of the values.
pub compare_to-int :
    (a b : ℤ)
    → IsInt32 (a -ℤ b)
    → ((compare_to a b <ℤ pos 0) ↔ (a <ℤ b)) × ((compare_to a b ≡ pos 0) ↔ (a ≡ b))
unfolding compare_to to_u32 of_u32
compare_to-int (pos a) (pos b) h = ground arith
compare_to-int (pos a) (negsuc b) h = ground arith
compare_to-int (negsuc a) (pos b) h = ground arith
compare_to-int (negsuc a) (negsuc b) h = ground arith

-- For every two values that are 2 ^ 31 or more apart the greater one is reported as the lesser.
pub compare_to_overflow :
    (a b : ℤ)
    → IsInt32 a
    → IsInt32 b
    → pos (2 ^ 31) ≤ℤ a -ℤ b
    → (b <ℤ a) × (compare_to a b <ℤ pos 0)
unfolding compare_to to_u32 of_u32
compare_to_overflow (pos a) (pos b) ha hb h = ground arith
compare_to_overflow (pos a) (negsuc b) ha hb h = ground arith
compare_to_overflow (negsuc a) (pos b) ha hb h = ground arith
compare_to_overflow (negsuc a) (negsuc b) ha hb h = ground arith
