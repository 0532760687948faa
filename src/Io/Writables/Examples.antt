-- ===== src/Io/Writables/Examples.antt =====
-- Concrete values of src/io/writable_types.h and src/io/md5.h.
use mini_hadoop.Common.{◌≡◌, ◌↔◌, true, false, [], ◌∷◌, arith, ok}
use mini_hadoop.Common.Int.{pos, negsuc, ◌<ℤ◌}
use mini_hadoop.Common.Text.{Bytes, codes}
use mini_hadoop.Io.Buffer.{reset}
use mini_hadoop.Io.Writables.IntWritable.{compare_to-int, compare_to_overflow}
use mini_hadoop.Io.Writables.BooleanWritable.{compare_to-boolean}
use mini_hadoop.Io.Writables.Utf8.{read_fields-write_utf8}
use mini_hadoop.Io.Writables.IntWritable
use mini_hadoop.Io.Writables.BooleanWritable
use mini_hadoop.Io.Writables.Utf8

compare_to_overflow_example :
    (negsuc 0 <ℤ pos 2147483647) × (IntWritable.compare_to (pos 2147483647) (negsuc 0) <ℤ pos 0)
compare_to_overflow_example =
    compare_to_overflow (pos 2147483647) (negsuc 0) (omega arith) (omega arith) (omega arith)

compare_to-boolean_example :
    ((BooleanWritable.compare_to false true <ℤ pos 0) ↔ ((false ≡ false) × (true ≡ true)))
    × ((BooleanWritable.compare_to false true ≡ pos 0) ↔ (false ≡ true))
compare_to-boolean_example = compare_to-boolean false true

read_fields-write_utf8_example :
    Utf8.read_fields (reset (Utf8.write [] (codes "word")))
    ≡ ok (codes "word", record { contents = Utf8.write [] (codes "word"); position = 6 })
read_fields-write_utf8_example = read_fields-write_utf8 (codes "word") (omega arith)

abbrev two_bytes : Bytes
two_bytes = 171 ∷ 7 ∷ []
