-- ===== src/Io/Writables/BooleanWritable.antt =====
-- `BooleanWritable` of src/io/writable_types.h; its state is the bool `value_`.
use mini_hadoop.Common.{Bool, true, false, if◌then◌else◌, ◌≡◌, ◌↔◌, arith}
use mini_hadoop.Common.Int.{ℤ, pos, ◌-ℤ◌, ◌<ℤ◌}
use mini_hadoop.Io.Buffer.{OutputBuffer, Reader, write_bool, read_bool}

unfoldable pub write : OutputBuffer → Bool → OutputBuffer
write out value = write_bool out value

unfoldable pub read_fields : Reader Bool
read_fields = read_bool

unfoldable pub compare_to : Bool → Bool → ℤ
compare_to value other = pos (if value then 1 else 0) -ℤ pos (if other then 1 else 0)

-- `false` is below `true`, and nothing else is below anything.
pub compare_to-boolean :
    (a b : Bool)
    → ((compare_to a b <ℤ pos 0) ↔ ((a ≡ false) × (b ≡ true)))
      × ((compare_to a b ≡ pos 0) ↔ (a ≡ b))
unfolding compare_to
compare_to-boolean a b = ground arith
