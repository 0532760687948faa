-- ===== src/Io/SequenceFile/Errors.antt =====
-- What the reader of src/io/sequence_file.h does with any bytes.
use mini_hadoop.Common.{
  ℕ, zero, suc, ◌≤◌, ◌<◌, ◌≡◌, ◌≢◌, ◌↔◌, length, take, drop, length-drop, arith,
}
use mini_hadoop.Common.Int.{ℤ, pos, negsuc, wrap32, ◌-ℤ◌}
use mini_hadoop.Common.Text.{Bytes, str_eq_iff}
use mini_hadoop.Status.{Status}
use mini_hadoop.Io.SequenceFile.{
  SequenceFileReader, check_header, magic, sync_len, stuck, read_be, read_value, read_key,
  read_record, next_loop, next,
}

read_value-ne-stuck : (len : ℤ) (r : SequenceFileReader) → read_value len r ≢ stuck
unfolding read_value
read_value-ne-stuck (pos n) r e = ground arith
read_value-ne-stuck (negsuc n) r e = cc

read_key-ne-stuck : (len n : ℤ) (r : SequenceFileReader) → read_key len n r ≢ stuck
unfolding read_key
read_key-ne-stuck len (pos n) r e = ground (
  arith,
  read_value-ne-stuck (wrap32 (len -ℤ pos n))
      (record r { input = drop n r.input; key = take n r.input }),
)
read_key-ne-stuck len (negsuc n) r e = cc

read_record-ne-stuck : (len : ℤ) (r : SequenceFileReader) → read_record len r ≢ stuck
unfolding read_record
read_record-ne-stuck len r e =
    ground (arith, read_key-ne-stuck len (read_be r.input) (record r { input = drop 4 r.input }))

next_loop-ne-stuck :
    (fuel : ℕ) (r : SequenceFileReader) → length r.input < fuel → next_loop fuel r ≢ stuck
unfolding next_loop
next_loop-ne-stuck zero r h = absurd (omega arith)
next_loop-ne-stuck (suc fuel) r h = λ e. ground (
  arith,
  read_record-ne-stuck (read_be r.input) (record r { input = drop 4 r.input }),
  next_loop-ne-stuck fuel (record r { input = drop sync_len (drop 4 r.input) }),
  length-drop sync_len (drop 4 r.input),
  length-drop 4 r.input,
)

-- `Next` ends on every file, whatever its bytes are: its loop never runs out of fuel.
pub next-ne-stuck : (r : SequenceFileReader) → next r ≢ stuck
unfolding next
next-ne-stuck r = next_loop-ne-stuck (suc (length r.input)) r (omega arith)

-- `Open` succeeds exactly on the files that start with the magic bytes and hold the 16 sync bytes.
pub check_header_ok :
    (file : Bytes) (r : SequenceFileReader)
    → ((check_header file r).1 ≡ Status.ok) ↔ ((take 4 file ≡ magic) × (20 ≤ length file))
unfolding check_header
check_header_ok file r = ground (arith, str_eq_iff (take 4 file) magic, length-drop 4 file)
