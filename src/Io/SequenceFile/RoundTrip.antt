-- ===== src/Io/SequenceFile/RoundTrip.antt =====
-- What the reader returns of a file that the writer left, through any number of sync markers.
use mini_hadoop.Common.{
  inr, inl, take, ◌⊎◌, true, append-nil, subst, sym, All, ℕ, zero, suc, ◌+◌, ◌≡◌, refl, ap, ◌∙◌,
  List, [], ◌∷◌, ◌++◌, length, drop, ltb-false, Option, none, some, append_assoc, take-append,
  drop-append, length-append, arith,
}
use mathlib.Core.Option
use mini_hadoop.Io.SequenceFile.Records.{
  KeyValue, IsStorable, record_bytes, size_bytes, next_loop-record,
}
use mini_hadoop.Common.Int.{to_u32, of_u32}
use mini_hadoop.Common.Text.{str_eq_refl, Bytes}
use mini_hadoop.Io.Buffer.{write_int, write_raw, be32}
use mini_hadoop.Io.SequenceFile.{
  Status, magic, open_reader, sync_escape, sync_len, marker, check_header, open_writer,
  SequenceFileWriter, SequenceFileReader, append_raw, found, ended, failed, stuck, next_loop, next,
}

-- The writer after a call of `AppendRaw` for each record.
unfoldable pub append_all : SequenceFileWriter → List KeyValue → SequenceFileWriter
append_all w [] = w
append_all w ((k, v) ∷ rs) = append_all (append_raw w k v).0 rs

-- What repeated calls of `Next` deliver until one returns false; `none` if one does not return.
pub read_all : ℕ → SequenceFileReader → Option (List KeyValue)
read_all zero r = none
read_all (suc fuel) r = elim (next r) [
  | found r' ↦ Option.map (◌∷◌ (r'.key, r'.value)) (read_all fuel r')
  | ended ↦ some []
  | failed e ↦ none
  | stuck ↦ none
]

marker_bytes : Bytes → Bytes
marker_bytes sync = be32 (to_u32 sync_escape) ++ sync

next_loop-marker :
    (fuel : ℕ) (sync rest : Bytes) (r : SequenceFileReader)
    → length sync ≡ sync_len
    → next_loop (suc fuel) (record r { input = marker_bytes sync ++ rest })
      ≡ next_loop fuel (record r { input = rest })
unfolding next_loop marker_bytes to_u32 of_u32
next_loop-marker fuel sync rest r h =
    let skipped : drop sync_len (sync ++ rest) ≡ rest =
      subst (λ (n : ℕ). drop n (sync ++ rest) ≡ rest) h (drop-append sync rest) in
    rw (ltb-false (length (marker_bytes sync ++ rest)) 4 (omega arith), skipped)

next-record :
    (kv : KeyValue) (rest : Bytes) (r : SequenceFileReader)
    → IsStorable kv
    → next (record r { input = record_bytes kv ++ rest })
      ≡ found (record r { input = rest; key = kv.0; value = kv.1 })
unfolding next
next-record (k, v) rest r h = next_loop-record _ k v rest r h.1

next-marker_record :
    (sync : Bytes) (kv : KeyValue) (rest : Bytes) (r : SequenceFileReader)
    → length sync ≡ sync_len
    → IsStorable kv
    → next (record r { input = marker_bytes sync ++ (record_bytes kv ++ rest) })
      ≡ found (record r { input = rest; key = kv.0; value = kv.1 })
unfolding next marker_bytes
next-marker_record sync (k, v) rest r hs h =
    let n = length (sync ++ (record_bytes (k, v) ++ rest)) in
    next_loop-marker (suc (suc (suc (suc n)))) sync (record_bytes (k, v) ++ rest) r hs
    ∙ next_loop-record (suc (suc (suc n))) k v rest r h.1

marker_cases : (w : SequenceFileWriter) → (marker w ≡ []) ⊎ (marker w ≡ marker_bytes w.sync)
unfolding marker marker_bytes write_raw write_int
marker_cases w = ground arith

-- Whether or not a marker stands in front of it, the next record is delivered.
next-marker :
    (w : SequenceFileWriter) (kv : KeyValue) (rest : Bytes) (r : SequenceFileReader)
    → length w.sync ≡ sync_len
    → IsStorable kv
    → next (record r { input = marker w ++ (record_bytes kv ++ rest) })
      ≡ found (record r { input = rest; key = kv.0; value = kv.1 })
next-marker w kv rest r hs h = elim (marker_cases w) [
  | inl e ↦ rw e (next-record kv rest r h)
  | inr e ↦ rw e (next-marker_record w.sync kv rest r hs h)
]

append_raw-file :
    (w : SequenceFileWriter) (kv : KeyValue)
    → IsStorable kv
    → (append_raw w kv.0 kv.1).0
      ≡ record w { file = w.file ++ (marker w ++ record_bytes kv); count = w.count + 1 }
unfolding append_raw write_raw write_int record_bytes size_bytes
append_raw-file w ([], v) h = absurd (omega (arith, h.0))
append_raw-file w (k ∷ ks, v) h = simp append_assoc

-- What `append_all` adds to the file.
body : SequenceFileWriter → List KeyValue → Bytes
body w [] = []
body w ((k, v) ∷ rs) = marker w ++ (record_bytes (k, v) ++ body (append_raw w k v).0 rs)

append_all-file :
    (w : SequenceFileWriter) (rs : List KeyValue)
    → All IsStorable rs
    → (append_all w rs).file ≡ w.file ++ body w rs
unfolding append_all body
append_all-file w [] h = sym (append-nil w.file)
append_all-file w ((k, v) ∷ rs) (hk, hs) =
    append_all-file (append_raw w k v).0 rs hs
    ∙ ap (λ (x : SequenceFileWriter). x.file ++ body (append_raw w k v).0 rs)
        (append_raw-file w (k, v) hk)
    ∙ simp append_assoc

read_all-body :
    (w : SequenceFileWriter) (rs : List KeyValue) (r : SequenceFileReader)
    → length w.sync ≡ sync_len
    → All IsStorable rs
    → read_all (suc (length rs)) (record r { input = body w rs }) ≡ some rs
unfolding read_all body
read_all-body w [] r hs h = unfold next next_loop in refl
read_all-body w ((k, v) ∷ rs) r hs (hk, h) =
    let w' = (append_raw w k v).0 in
    let hs' : length w'.sync ≡ sync_len = rw (append_raw-file w (k, v) hk) hs in
    rw (next-marker w (k, v) (body w' rs) r hs hk, read_all)
      (ap (Option.map (◌∷◌ (k, v))) (read_all-body w' rs (record r { key = k; value = v }) hs' h))

check_header_lem :
    (sync rest : Bytes) (r : SequenceFileReader)
    → length sync ≡ sync_len
    → check_header ((magic ++ sync) ++ rest) r ≡ (record r { input = rest; sync = sync }, Status.ok)
unfolding check_header
check_header_lem sync rest r h =
    let taken : take sync_len (sync ++ rest) ≡ sync =
      subst (λ (n : ℕ). take n (sync ++ rest) ≡ sync) h (take-append sync rest) in
    let dropped : drop sync_len (sync ++ rest) ≡ rest =
      subst (λ (n : ℕ). drop n (sync ++ rest) ≡ rest) h (drop-append sync rest) in
    rw (
      ltb-false (length ((magic ++ sync) ++ rest)) 4 (omega arith),
      str_eq_refl magic,
      ltb-false (length (sync ++ rest)) sync_len (omega (arith, length-append sync rest)),
      taken,
      dropped,
    )

-- A file to which storable records were appended, however many, opens without an error and with
-- the writer's sync bytes, and repeated calls of `Next` deliver the records in order and then
-- return false.
pub read_all-append_all :
    (path : Bytes) (w : SequenceFileWriter) (r : SequenceFileReader) (rs : List KeyValue)
    → length w.sync ≡ sync_len
    → All IsStorable rs
    → let file = (append_all (open_writer true path w).0 rs).file in
      let opened = open_reader (some file) path r in
      (opened.1 ≡ Status.ok)
      × (opened.0.sync ≡ w.sync)
      × (read_all (suc (length rs)) opened.0 ≡ some rs)
unfolding open_writer open_reader
read_all-append_all path w r rs hs h =
    let w0 : SequenceFileWriter = record w { file = magic ++ w.sync; count = 0 } in
    let e = append_all-file w0 rs h in
    let opened = check_header_lem w.sync (body w0 rs) r hs in
    rw (e, opened) (refl, refl, read_all-body w0 rs (record r { sync = w.sync }) hs h)
