-- ===== src/Io/SequenceFile/Typed.antt =====
-- `Append` of src/io/sequence_file.h, for keys and values of any two classes of
-- src/io/writable_types.h.
use mathlib.Core.Option
use mini_hadoop.Common.{
  ℕ, suc, ◌≡◌, refl, ap, List, [], ◌∷◌, length, map, subst, All, some, ok, throws, Outcome, arith,
  true,
}
use mini_hadoop.Common.Text.{Bytes}
use mini_hadoop.Io.Buffer.{reset}
use mini_hadoop.Io.Writables.Writable.{Writable, IsWritable, read_fields-write}
use mini_hadoop.Io.SequenceFile.{
  Status, SequenceFileWriter, SequenceFileReader, append_raw, open_writer, open_reader, sync_len,
}
use mini_hadoop.Io.SequenceFile.Records.{KeyValue, IsStorable}
use mini_hadoop.Io.SequenceFile.RoundTrip.{append_all, read_all, read_all-append_all}

module _ {K V : Type 0} (wk : Writable K) (wv : Writable V) where
  -- `Append`
  unfoldable pub append : SequenceFileWriter → K → V → SequenceFileWriter × Status
  append w k v = append_raw w (wk.write [] k) (wv.write [] v)

  abbrev pub append_each : SequenceFileWriter → List (K × V) → SequenceFileWriter
  append_each w [] = w
  append_each w ((k, v) ∷ kvs) = append_each (append w k v).0 kvs

  -- What a caller reads from `Key` and `Value` of a record.
  abbrev pub read_pair : KeyValue → Outcome (K × V)
  read_pair (k, v) = elim (wk.read_fields (reset k)) [
    | throws e ↦ throws e
    | ok (key, _) ↦ elim (wv.read_fields (reset v)) [
      | throws e ↦ throws e
      | ok (value, _) ↦ ok (key, value)
    ]
  ]

  abbrev encode : K × V → KeyValue
  encode (k, v) = (wk.write [] k, wv.write [] v)

  append_each-append_all :
      (w : SequenceFileWriter) (kvs : List (K × V))
      → append_each w kvs ≡ append_all w (map encode kvs)
  unfolding append append_all
  append_each-append_all w [] = refl
  append_each-append_all w ((k, v) ∷ kvs) =
      append_each-append_all (append_raw w (wk.write [] k) (wv.write [] v)).0 kvs

  -- The key is not empty, and the record is below 2 GiB.
  abbrev pub IsRecord : K × V → Type 0
  IsRecord (k, v) = IsStorable (wk.write [] k, wv.write [] v)

  encode-IsStorable : (kvs : List (K × V)) → All IsRecord kvs → All IsStorable (map encode kvs)
  encode-IsStorable [] h = tt
  encode-IsStorable (kv ∷ kvs) (hkv, h) = (hkv, encode-IsStorable kvs h)

  length-encode : (kvs : List (K × V)) → length (map encode kvs) ≡ length kvs
  length-encode [] = refl
  length-encode (kv ∷ kvs) = ap suc (length-encode kvs)

  module _ {KeepsKey : K → Type 0} {KeepsValue : V → Type 0} (lawful_key : IsWritable wk KeepsKey)
      (lawful_value : IsWritable wv KeepsValue) where
    abbrev pub IsKept : K × V → Type 0
    IsKept (k, v) = KeepsKey k × KeepsValue v

    read_pair-encode : (kv : K × V) → IsKept kv → IsRecord kv → read_pair (encode kv) ≡ ok kv
    read_pair-encode (k, v) (hk, hv) h =
        rw
          (
            read_pair,
            read_fields-write wk lawful_key k hk (omega (arith, h.1)),
            read_fields-write wv lawful_value v hv (omega (arith, h.1)),
          )
          refl

    map-read_pair :
        (kvs : List (K × V))
        → All IsKept kvs
        → All IsRecord kvs
        → map read_pair (map encode kvs) ≡ map ok kvs
    map-read_pair [] hk h = refl
    map-read_pair (kv ∷ kvs) (hkv, hk) (here, h) =
        rw (read_pair-encode kv hkv here, map-read_pair kvs hk h) refl

    -- Keys and values of any two classes whose `ReadFields` reads what their `Write` writes, each key
    -- of at least one byte and each record below 2 GiB, appended to a new file, however many: the file
    -- opens without an error, and the keys and values that are read from the records which `Next`
    -- delivers, until it returns false, are those that were appended, in order.
    pub read_all-append_each :
        (path : Bytes) (w : SequenceFileWriter) (r : SequenceFileReader) (kvs : List (K × V))
        → length w.sync ≡ sync_len
        → All IsKept kvs
        → All IsRecord kvs
        → let file = (append_each (open_writer true path w).0 kvs).file in
          let opened = open_reader (some file) path r in
          (opened.1 ≡ Status.ok)
          × (Option.map (map read_pair) (read_all (suc (length kvs)) opened.0) ≡ some (map ok kvs))
    read_all-append_each path w r kvs hs hk h =
        let (opens, _, reads) =
          read_all-append_all path w r (map encode kvs) hs (encode-IsStorable kvs h) in
        let e = append_each-append_all (open_writer true path w).0 kvs in
        let opened =
          open_reader (some (append_all (open_writer true path w).0 (map encode kvs)).file) path
            r in
        let counted : read_all (suc (length kvs)) opened.0 ≡ some (map encode kvs) =
          subst (λ (n : ℕ). read_all (suc n) opened.0 ≡ some (map encode kvs)) (length-encode kvs)
            reads in
        rw (e, counted) (opens, ap some (map-read_pair kvs hk h))
