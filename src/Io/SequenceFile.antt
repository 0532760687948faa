-- ===== src/Io/SequenceFile.antt =====
-- src/io/sequence_file.h: the writer and the reader of key-value files. A file is its bytes.
pub mod Records
pub mod RoundTrip
pub mod Typed
pub mod Errors
mod Examples
use mini_hadoop.Common.{
  some, none, Option, not, not, Option, ℕ, zero, suc, ◌+◌, ◌%◌, Bool, true, false, ◌&&◌, List, [],
  ◌∷◌, ◌++◌, length, take, drop, ltb, ◌==◌, if◌then◌else◌, Fault, length_error,
}
use mini_hadoop.Common.Int.{ℤ, pos, negsuc, wrap32, of_u32, ◌-ℤ◌, eqb_ℤ}
use mini_hadoop.Common.Text.{Bytes, codes, str_eq}
use mini_hadoop.Status.{Status}
use mini_hadoop.Io.Buffer.{be_value, write_int, write_raw}

-- `kMagic`, `kSyncEscape`, `kSyncInterval` and `MD5Hash::kMD5Len`.
abbrev pub magic : Bytes
magic = b'S' ∷ b'E' ∷ b'Q' ∷ 2 ∷ []

abbrev pub sync_escape : ℤ
sync_escape = negsuc 0

abbrev pub sync_interval : ℕ
sync_interval = 100

abbrev pub sync_len : ℕ
sync_len = 16

-- `file_` holds what was written so far; `sync` is drawn at random by the constructor.
pub record SequenceFileWriter : Type 0 where
  pub file : Bytes
  pub sync : Bytes
  pub count : ℕ

-- `SequenceFileWriter::Open`, given whether the stream could be opened.
unfoldable pub open_writer : Bool → Bytes → SequenceFileWriter → SequenceFileWriter × Status
open_writer false path w = (w, Status.io_error (codes "cannot open: " ++ path))
open_writer true path w = (record w { file = magic ++ w.sync; count = 0 }, Status.ok)

-- The sync marker that `AppendRaw` puts in front of a record.
unfoldable pub marker : SequenceFileWriter → Bytes
marker w =
    if ltb 0 w.count && w.count % sync_interval == 0
    then write_raw (write_int [] sync_escape) w.sync
    else []

unfoldable pub append_raw : SequenceFileWriter → Bytes → Bytes → SequenceFileWriter × Status
unfolding marker
append_raw w [] value = (w, Status.invalid_arg (codes "zero-length key"))
append_raw w (k ∷ ks) value =
    let key = k ∷ ks in
    let out = write_int (marker w) (wrap32 (pos (length key + length value))) in
    let out = write_int out (wrap32 (pos (length key))) in
    let out = write_raw (write_raw out key) value in
    (record w { file = w.file ++ out; count = w.count + 1 }, Status.ok)

-- `input` is what the stream has not delivered yet. A read that comes up short leaves it empty.
pub record SequenceFileReader : Type 0 where
  pub input : Bytes
  pub sync : Bytes
  pub key : Bytes
  pub value : Bytes

-- `SequenceFileReader::Open`, given the content of the file if it could be opened.
unfoldable pub check_header : Bytes → SequenceFileReader → SequenceFileReader × Status
check_header file r =
    let rest = drop 4 file in
    if ltb (length file) 4
    then (record r { input = [] }, Status.corrupt (codes "not a SequenceFile"))
    else if not (str_eq (take 4 file) magic)
    then (record r { input = rest }, Status.corrupt (codes "not a SequenceFile"))
    else if ltb (length rest) sync_len
    then (record r { input = [] }, Status.corrupt (codes "truncated header"))
    else (record r { input = drop sync_len rest; sync = take sync_len rest }, Status.ok)

unfoldable pub open_reader : Option Bytes → Bytes → SequenceFileReader → SequenceFileReader × Status
unfolding check_header
open_reader none path r = (r, Status.io_error (codes "cannot open: " ++ path))
open_reader (some file) path r = check_header file r

-- What a call of `Next` ends in: a record (the method returns true), the end (it returns false),
-- or an exception of `resize`. `stuck` is no C++ outcome: the loop ran out of fuel.
pub data NextResult : Type 0 where
  found : SequenceFileReader → NextResult
  ended : NextResult
  failed : Fault → NextResult
  stuck : NextResult

-- `ReadBE`, where four bytes are there.
abbrev pub read_be : Bytes → ℤ
read_be bs = of_u32 (be_value (take 4 bs))

unfoldable pub read_value : ℤ → SequenceFileReader → NextResult
read_value (negsuc _) r = failed length_error
read_value (pos n) r =
    if ltb (length r.input) n
    then ended
    else found (record r { input = drop n r.input; value = take n r.input })

-- From `key_buf_.resize` on; `val_len` is an int32_t difference.
unfoldable pub read_key : ℤ → ℤ → SequenceFileReader → NextResult
unfolding read_value
read_key len (negsuc _) r = failed length_error
read_key len (pos n) r =
    if ltb (length r.input) n
    then ended
    else read_value (wrap32 (len -ℤ pos n))
        (record r { input = drop n r.input; key = take n r.input })

unfoldable pub read_record : ℤ → SequenceFileReader → NextResult
unfolding read_key
read_record len r =
    if ltb (length r.input) 4
    then ended
    else read_key len (read_be r.input) (record r { input = drop 4 r.input })

-- The `while (true)` of `Next`; `seekg` past the end leaves nothing to read.
unfoldable pub next_loop : ℕ → SequenceFileReader → NextResult
unfolding read_record
next_loop zero r = stuck
next_loop (suc fuel) r =
    let again = next_loop fuel (record r { input = drop sync_len (drop 4 r.input) }) in
    if ltb (length r.input) 4
    then ended
    else if eqb_ℤ (read_be r.input) sync_escape
    then again
    else read_record (read_be r.input) (record r { input = drop 4 r.input })

-- Each round takes four bytes at least, so one round for each byte and one more are enough.
unfoldable pub next : SequenceFileReader → NextResult
unfolding next_loop
next r = next_loop (suc (length r.input)) r
