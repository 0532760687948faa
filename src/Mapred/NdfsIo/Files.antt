-- ===== src/Mapred/NdfsIo/Files.antt =====
-- A file of src/mapred/api/ndfs_io.h from its writer to its reader.
use mini_hadoop.Common.{
  length-map, ℕ, zero, suc, ◌+◌, ◌*◌, ◌^◌, ◌≤◌, ◌<◌, ◌≡◌, refl, sym, ap, subst, ◌∙◌, Bool, true,
  false, not, ◌&&◌, List, [], ◌∷◌, ◌++◌, append_assoc, append-nil, map, length, length-append, some,
  none, arith, All, All-append, ok, ◌==◌,
}
use mini_hadoop.Common.Assoc.{lookup}
use mini_hadoop.Common.Decimal.{print_long, print_long-All}
use mini_hadoop.Common.Int.{ℤ, pos}
use mini_hadoop.Common.Text.{Bytes}
use mini_hadoop.Common.Text.Streams.{split_on, split_on-append}
use mini_hadoop.Mapred.JobTracker.{MapOutput}
use mini_hadoop.Mapred.NdfsIo.{
  NdfsLineRecordReader, get_elem?, next, records, open_reader, close_writer, write, write_all,
}
use mini_hadoop.Mapred.TaskTracker.Execution.{print_results}
use mini_hadoop.Ndfs.BlockStorage.{BlockStorage}
use mini_hadoop.Ndfs.DfsClient.Files.{Cluster, read_file}
use mini_hadoop.Ndfs.DfsClient.Files.Conditions.{IsDistinct, IsFitCluster}
use mini_hadoop.Ndfs.DfsClient.Files.Reading.{read_file-write_file}
use mini_hadoop.Ndfs.DfsClient.Files.World.{World, world, address, address_eq}
use mini_hadoop.Ndfs.FsNamesystem.{DataNodeInfo, choose_targets, default_replication, in_safe_mode}
use mini_hadoop.Ndfs.FsNamesystem.Client.{started_tree, exists}
use mini_hadoop.Ndfs.NameNode.Server.{Served, Draws}
use mini_hadoop.Status.{Status}

-- The buffer holds the lines that a reduce task would print.
write_all-print_results :
    (kvs : List MapOutput) (buffer : Bytes) → write_all buffer kvs ≡ buffer ++ print_results kvs
unfolding write print_results
write_all-print_results [] buffer = sym (append-nil buffer)
write_all-print_results ((k, v) ∷ kvs) buffer =
    write_all-print_results kvs (write buffer (k, v)) ∙ simp append_assoc

abbrev pub result_line : MapOutput → Bytes
result_line (k, v) = k ++ (9 ∷ print_long v)

abbrev pub IsLineKey : MapOutput → Type 0
IsLineKey kv = All (λ c. (c == 10) ≡ false) kv.0

result_line-IsLine : (kv : MapOutput) → IsLineKey kv → All (λ c. (c == 10) ≡ false) (result_line kv)
result_line-IsLine (k, v) h =
    All-append (λ c. (c == 10) ≡ false) k (9 ∷ print_long v) h
      (refl, print_long-All _ v refl (λ c d. ground arith))

-- The output file has one line for each result.
pub split_on-print_results :
    (kvs : List MapOutput)
    → All IsLineKey kvs
    → split_on 10 (print_results kvs) ≡ map result_line kvs
unfolding print_results
split_on-print_results [] h = unfold split_on in refl
split_on-print_results ((k, v) ∷ kvs) (hk, h) =
    ap (split_on 10) (sym (append_assoc k (9 ∷ print_long v) (10 ∷ print_results kvs)))
    ∙ split_on-append 10 (result_line (k, v)) (print_results kvs) refl
        (result_line-IsLine (k, v) hk)
    ∙ ap (◌∷◌ (result_line (k, v))) (split_on-print_results kvs h)

print_results-cons :
    (kv : MapOutput) (kvs : List MapOutput)
    → (c : ℕ) × (cs : Bytes) × (print_results (kv ∷ kvs) ≡ c ∷ cs)
unfolding print_results
print_results-cons ([], v) kvs = (9, print_long v ++ (10 ∷ print_results kvs), refl)
print_results-cons (c ∷ k, v) kvs = (c, k ++ (9 ∷ (print_long v ++ (10 ∷ print_results kvs))), refl)

-- The lines with their numbers.
abbrev pub numbered : ℕ → List Bytes → List (ℤ × Bytes)
numbered n [] = []
numbered n (line ∷ lines) = (pos n, line) ∷ numbered (suc n) lines

get_elem?-behind :
    (before : List Bytes) (line : Bytes) (lines : List Bytes)
    → get_elem? (before ++ (line ∷ lines)) (length before) ≡ some line
get_elem?-behind [] line lines = refl
get_elem?-behind (x ∷ before) line lines = get_elem?-behind before line lines

get_elem?-end : (lines : List Bytes) → get_elem? lines (length lines) ≡ none
get_elem?-end [] = refl
get_elem?-end (x ∷ lines) = get_elem?-end lines

step :
    (before : List Bytes) (line : Bytes) (lines : List Bytes) (fuel : ℕ)
    → records fuel (record {
      lines = (before ++ (line ∷ [])) ++ lines;
      position = length (before ++ (line ∷ []));
    })
      ≡ numbered (length (before ++ (line ∷ []))) lines
    → records fuel (record { lines = before ++ (line ∷ lines); position = suc (length before) })
      ≡ numbered (suc (length before)) lines
step before line lines fuel =
    let n : length (before ++ (line ∷ [])) ≡ suc (length before) =
      omega (arith, length-append before (line ∷ [])) in
    rw (n, append_assoc before (line ∷ []) lines) (λ h. h)

records_from :
    (lines before : List Bytes) (fuel : ℕ)
    → length lines ≤ fuel
    → records fuel (record { lines = before ++ lines; position = length before })
      ≡ numbered (length before) lines
unfolding records next
records_from [] before zero h = refl
records_from [] before (suc fuel) h =
    let end : get_elem? (before ++ []) (length before) ≡ none =
      rw (append-nil before) (get_elem?-end before) in
    rw (records, next, end) refl
records_from (line ∷ lines) before zero h = absurd (omega (arith, h))
records_from (line ∷ lines) before (suc fuel) h =
    let at : get_elem? (before ++ (line ∷ lines)) (length before) ≡ some line =
      get_elem?-behind before line lines in
    rw (records, next, at)
      (ap (λ (rs : List (ℤ × Bytes)). (pos (length before), line) ∷ rs)
        (step before line lines fuel
          (records_from lines (before ++ (line ∷ [])) fuel (omega (arith, h)))))

open_reader-read_file :
    {W : Type 0}
    → (cluster : Cluster W) (to_string : ℤ → Bytes) (path bytes : Bytes) (w : W)
    → (read_file cluster to_string path [] w).0 ≡ ok (Status.ok, bytes)
    → (open_reader cluster to_string path w).0
      ≡ ok (record { lines = split_on 10 bytes; position = 0 })
unfolding open_reader
open_reader-read_file cluster to_string path bytes w h = rw (open_reader, h) refl

and-false : (b : Bool) → (b && false) ≡ false
and-false b = ground arith

module _ (path : Bytes) (t : DataNodeInfo) (dns : List DataNodeInfo) (fit : IsFitCluster path t dns)
    (draws : Draws) (block_path to_string : ℤ → Bytes) (burst : ℕ) where
  abbrev cluster : Cluster World
  cluster = world draws block_path burst

  -- A job's results, at least one and less than 1 GiB of them, with keys without line breaks, that a
  -- writer was given and then closed on a cluster like that of ReadFile after WriteFile, are what a
  -- reader of the path then reads: the results in their order, a line for each, under the numbers
  -- from 0 on, and then the end.
  pub records-write_all :
      (block_size : ℕ) (kv : MapOutput) (kvs : List MapOutput) (w : World) (s : Served)
      (storage : BlockStorage) (n fuel : ℕ)
      → All IsLineKey (kv ∷ kvs)
      → w.name_node ≡ some s
      → in_safe_mode s.namesystem ≡ false
      → (started_tree path true s.namesystem.tree).1 ≡ true
      → choose_targets default_replication s.namesystem ≡ t ∷ dns
      → lookup address_eq (address t) w.nodes ≡ some storage
      → IsDistinct draws n
      → s.requests + length (write_all [] (kv ∷ kvs)) * suc (length (t ∷ dns)) ≤ n
      → 0 < block_size
      → length (write_all [] (kv ∷ kvs)) < 2 ^ 30
      → length (write_all [] (kv ∷ kvs)) ≤ burst
      → 8 ≤ burst
      → length (kv ∷ kvs) ≤ fuel
      → (r : NdfsLineRecordReader) × ((open_reader cluster to_string path
            (close_writer cluster block_size path (write_all [] (kv ∷ kvs)) w).1).0
          ≡ ok r)
        × (records fuel r ≡ numbered 0 (map result_line (kv ∷ kvs)))
  unfolding close_writer
  records-write_all block_size kv kvs w s storage n fuel keys up out made chosen reached hd hn hb hl
        hburst h8 hfuel =
      let (c, cs, e) = print_results-cons kv kvs in
      let bytes : write_all [] (kv ∷ kvs) ≡ c ∷ cs = write_all-print_results (kv ∷ kvs) [] ∙ e in
      let size : length (write_all [] (kv ∷ kvs)) ≡ length (c ∷ cs) = ap length bytes in
      let free : (exists s.namesystem.tree path && not true) ≡ false =
        and-false (exists s.namesystem.tree path) in
      let (_, back) =
        read_file-write_file path t dns fit draws block_path burst to_string block_size true c cs []
          w s storage n up out free made chosen reached hd
          (subst (λ (x : Bytes). s.requests + length x * suc (length (t ∷ dns)) ≤ n) bytes hn) hb
          (omega (arith, hl, size)) (omega (arith, hburst, size)) h8 in
      let read : (read_file cluster to_string path []
            (close_writer cluster block_size path (write_all [] (kv ∷ kvs)) w).1).0
          ≡ ok (Status.ok, c ∷ cs) =
        rw bytes back in
      let opened =
        open_reader-read_file cluster to_string path (c ∷ cs)
          (close_writer cluster block_size path (write_all [] (kv ∷ kvs)) w).1 read in
      let lines : split_on 10 (c ∷ cs) ≡ map result_line (kv ∷ kvs) =
        ap (split_on 10) (sym e) ∙ split_on-print_results (kv ∷ kvs) keys in
      (
        record { lines = split_on 10 (c ∷ cs); position = 0 },
        opened,
        rw lines (
            records_from (map result_line (kv ∷ kvs)) [] fuel
              (omega (arith, hfuel, length-map result_line (kv ∷ kvs)))),
      )
