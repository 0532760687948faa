-- ===== src/Io/Writables/NullWritable.antt =====
-- `NullWritable` of src/io/writable_types.h, which has no state.
use mini_hadoop.Common.{ok}
use mini_hadoop.Common.Int.{ℤ, pos}
use mini_hadoop.Io.Buffer.{OutputBuffer, Reader}

unfoldable pub write : OutputBuffer → Unit {0} → OutputBuffer
write out value = out

unfoldable pub read_fields : Reader (Unit {0})
read_fields = λ b. ok (tt, b)

unfoldable pub compare_to : Unit {0} → Unit {0} → ℤ
compare_to value other = pos 0
