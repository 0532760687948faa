-- ===== src/Io/SequenceFile/Examples.antt =====
-- Concrete files of src/io/sequence_file.h.
use mini_hadoop.Common.{
  ◌≡◌, ◌≢◌, refl, true, List, [], ◌∷◌, suc, some, length, replicate, arith, map, ok, All,
}
use mini_hadoop.Common.Text.{codes}
use mini_hadoop.Status.{Status}
use mini_hadoop.Io.SequenceFile.{
  SequenceFileWriter, SequenceFileReader, open_reader, open_writer, next, stuck,
}
use mini_hadoop.Io.SequenceFile.Records.{KeyValue}
use mini_hadoop.Io.SequenceFile.RoundTrip.{append_all, read_all, read_all-append_all}
use mini_hadoop.Io.SequenceFile.Typed.{IsRecord, append_each, read_pair, read_all-append_each}
use mini_hadoop.Io.Writables.Writable.{
  int_writable, long_writable, int_writable-IsWritable, long_writable-IsWritable,
}
use mini_hadoop.Io.Writables.IntWritable
use mini_hadoop.Io.Writables.LongWritable
use mini_hadoop.Io.Buffer.{write_int, write_long, write_raw}
use mini_hadoop.Common.Int.{ℤ, pos, negsuc}
use mathlib.Core.Option
use mini_hadoop.Io.SequenceFile.Errors.{next-ne-stuck}

abbrev writer : SequenceFileWriter
writer = record { file = []; sync = replicate 16 7; count = 0 }

abbrev reader : SequenceFileReader
reader = record { input = 0 ∷ 1 ∷ []; sync = []; key = []; value = [] }

abbrev pairs : List KeyValue
pairs = (codes "k", codes "value") ∷ (codes "l", []) ∷ []

read_all-append_all_example :
    let file = (append_all (open_writer true (codes "f") writer).0 pairs).file in
    let opened = open_reader (some file) (codes "f") reader in
    (opened.1 ≡ Status.ok)
    × (opened.0.sync ≡ writer.sync)
    × (read_all (suc (length pairs)) opened.0 ≡ some pairs)
read_all-append_all_example =
    read_all-append_all (codes "f") writer reader pairs refl
      ((omega arith, omega arith), ((omega arith, omega arith), tt))

next-ne-stuck_example : next reader ≢ stuck
next-ne-stuck_example = next-ne-stuck reader

abbrev typed_pairs : List (ℤ × ℤ)
typed_pairs = (pos 1, pos 100) ∷ (negsuc 0, pos 200) ∷ []

records-IsRecord : All (IsRecord int_writable long_writable) typed_pairs
unfolding IntWritable.write LongWritable.write write_int write_long write_raw
records-IsRecord = ((omega arith, omega arith), ((omega arith, omega arith), tt))

read_all-append_each_example :
    let file =
      (append_each int_writable long_writable
        (open_writer true (codes "f") writer).0
        typed_pairs).file in
    let opened = open_reader (some file) (codes "f") reader in
    (opened.1 ≡ Status.ok)
    × (Option.map (map (read_pair int_writable long_writable)) (read_all 3 opened.0)
        ≡ some (ok (pos 1, pos 100) ∷ ok (negsuc 0, pos 200) ∷ []))
read_all-append_each_example =
    read_all-append_each int_writable long_writable int_writable-IsWritable long_writable-IsWritable
      (codes "f") writer reader typed_pairs refl
      ((omega arith, omega arith), ((omega arith, omega arith), tt)) records-IsRecord
