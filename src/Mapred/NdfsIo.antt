-- ===== src/Mapred/NdfsIo.antt =====
-- src/mapred/api/ndfs_io.h: a job's input and output in files of the distributed file system. The
-- client is the model of `ReadFile` and `WriteFile` on a cluster.
pub mod Files
mod Examples
use mini_hadoop.Common.{
  ℕ, zero, suc, Bool, true, List, [], ◌∷◌, ◌++◌, Option, none, some, Outcome, ok, throws,
  if◌then◌else◌,
}
use mini_hadoop.Common.Decimal.{print_long}
use mini_hadoop.Common.Int.{ℤ, pos}
use mini_hadoop.Common.Text.{Bytes}
use mini_hadoop.Common.Text.Streams.{split_on}
use mini_hadoop.Mapred.JobTracker.{MapOutput}
use mini_hadoop.Ndfs.DfsClient.Files.{Cluster, Run, write_file, read_file}
use mini_hadoop.Status.{Status, is_ok}

-- `lines_` and `pos_`
pub record NdfsLineRecordReader : Type 0 where
  pub lines : List Bytes
  pub position : ℕ

abbrev pub get_elem? : List Bytes → ℕ → Option Bytes
get_elem? [] i = none
get_elem? (x ∷ xs) zero = some x
get_elem? (x ∷ xs) (suc i) = get_elem? xs i

-- `Next`: the key, which is the number of the line, the line, and the reader afterwards.
unfoldable pub next : NdfsLineRecordReader → Option (ℤ × Bytes × NdfsLineRecordReader)
next r = elim (get_elem? r.lines r.position) [
  | none ↦ none
  | some line ↦ some (pos r.position, line, record r { position = suc r.position })
]

-- What a loop over `Next` reads, one record for each unit of fuel at most.
unfoldable pub records : ℕ → NdfsLineRecordReader → List (ℤ × Bytes)
unfolding next
records zero r = []
records (suc fuel) r = elim (next r) [
  | none ↦ []
  | some (key, line, r') ↦ (key, line) ∷ records fuel r'
]

abbrev pub lines_of : Status → Bytes → List Bytes
lines_of st bytes = if is_ok st then split_on 10 bytes else []

module _ {W : Type 0} (cluster : Cluster W) where
  -- The constructor of the reader.
  unfoldable pub open_reader : (ℤ → Bytes) → Bytes → W → Outcome NdfsLineRecordReader × W
  open_reader to_string path w =
      let (result, w') = read_file cluster to_string path [] w in
      let reader : Outcome NdfsLineRecordReader = elim result [
        | throws e ↦ throws e
        | ok (st, bytes) ↦ ok (record { lines = lines_of st bytes; position = 0 })
      ] in
      (reader, w')

  -- `Close` of the writer; the status of `WriteFile` is dropped.
  unfoldable pub close_writer : ℕ → Bytes → Bytes → W → Run × W
  close_writer block_size path buffer w = write_file cluster block_size path buffer true w

-- `Write` of the writer, on its buffer.
unfoldable pub write : Bytes → MapOutput → Bytes
unfolding print_long
write buffer (key, value) = buffer ++ (key ++ (9 ∷ (print_long value ++ (10 ∷ []))))

abbrev pub write_all : Bytes → List MapOutput → Bytes
write_all buffer [] = buffer
write_all buffer (kv ∷ kvs) = write_all (write buffer kv) kvs
