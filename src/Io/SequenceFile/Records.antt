-- ===== src/Io/SequenceFile/Records.antt =====
-- One record of a sequence file as bytes, and what `Next` makes of it.
use mini_hadoop.Common.{
  ℕ, suc, ◌+◌, ◌^◌, ◌<◌, ◌≡◌, refl, ap, ◌∙◌, ◌++◌, length, drop, ltb-false, append_assoc,
  take-append, drop-append, length-append, arith,
}
use mini_hadoop.Common.Int.{
  pos, to_u32, of_u32, wrap32, wrap32_of_lt, to_u32-lt, ◌-ℤ◌, of_u32-to_u32,
}
use mini_hadoop.Common.Text.{Bytes}
use mini_hadoop.Io.Buffer.{be32}
use mini_hadoop.Io.Buffer.RoundTrip.{be_value-be32}
use mini_hadoop.Io.SequenceFile.{
  SequenceFileReader, found, read_be, read_value, read_key, read_record, next_loop,
}

abbrev pub KeyValue : Type 0
KeyValue = Bytes × Bytes

-- A key is not empty, and the record is below 2 GiB.
abbrev pub IsStorable : KeyValue → Type 0
IsStorable (k, v) = (0 < length k) × (length k + length v < 2 ^ 31)

unfoldable pub size_bytes : ℕ → Bytes
size_bytes n = be32 (to_u32 (wrap32 (pos n)))

read_be-size_bytes : (n : ℕ) (rest : Bytes) → n < 2 ^ 31 → read_be (size_bytes n ++ rest) ≡ pos n
unfolding size_bytes
read_be-size_bytes n rest h =
    rw (wrap32_of_lt n h)
      (ap of_u32 (be_value-be32 (to_u32 (pos n)) (to_u32-lt (pos n))) ∙ of_u32-to_u32 (pos n) h)

unfoldable pub record_bytes : KeyValue → Bytes
record_bytes (k, v) = size_bytes (length k + length v) ++ (size_bytes (length k) ++ (k ++ v))

read_value_lem :
    (v rest : Bytes) (r : SequenceFileReader)
    → read_value (pos (length v)) (record r { input = v ++ rest })
      ≡ found (record r { input = rest; value = v })
unfolding read_value
read_value_lem v rest r = rw (
  ltb-false (length (v ++ rest)) (length v) (omega (arith, length-append v rest)),
  take-append v rest,
  drop-append v rest,
)

difference : (m n : ℕ) → n < 2 ^ 31 → wrap32 (pos (m + n) -ℤ pos m) ≡ pos n
difference m n h =
    let e : pos (m + n) -ℤ pos m ≡ pos n = ground arith in ap wrap32 e ∙ wrap32_of_lt n h

read_key_lem :
    (k v rest : Bytes) (r : SequenceFileReader)
    → length v < 2 ^ 31
    → read_key (pos (length k + length v)) (pos (length k)) (record r { input = k ++ (v ++ rest) })
      ≡ found (record r { input = rest; key = k; value = v })
unfolding read_key
read_key_lem k v rest r h =
    rw
      (
        ltb-false (length (k ++ (v ++ rest))) (length k)
            (omega (arith, length-append k (v ++ rest))),
        take-append k (v ++ rest),
        drop-append k (v ++ rest),
        difference (length k) (length v) h,
      )
      (read_value_lem v rest (record r { key = k }))

length-size_bytes : (n : ℕ) (rest : Bytes) → length (size_bytes n ++ rest) ≡ 4 + length rest
unfolding size_bytes
length-size_bytes n rest = omega arith

drop-size_bytes : (n : ℕ) (rest : Bytes) → drop 4 (size_bytes n ++ rest) ≡ rest
unfolding size_bytes
drop-size_bytes n rest = refl

read_record_lem :
    (k v rest : Bytes) (r : SequenceFileReader)
    → length k + length v < 2 ^ 31
    → read_record
        (pos (length k + length v))
        (record r { input = size_bytes (length k) ++ (k ++ (v ++ rest)) })
      ≡ found (record r { input = rest; key = k; value = v })
unfolding read_record
read_record_lem k v rest r h =
    rw
      (
        ltb-false (length (size_bytes (length k) ++ (k ++ (v ++ rest)))) 4
            (omega (arith, length-size_bytes (length k) (k ++ (v ++ rest)))),
        read_be-size_bytes (length k) (k ++ (v ++ rest)) (omega arith),
        drop-size_bytes (length k) (k ++ (v ++ rest)),
      )
      (read_key_lem k v rest r (omega arith))

pub next_loop-record :
    (fuel : ℕ) (k v rest : Bytes) (r : SequenceFileReader)
    → length k + length v < 2 ^ 31
    → next_loop (suc fuel) (record r { input = record_bytes (k, v) ++ rest })
      ≡ found (record r { input = rest; key = k; value = v })
unfolding next_loop record_bytes
next_loop-record fuel k v rest r h =
    let n = length k + length v in
    let tail = size_bytes (length k) ++ (k ++ (v ++ rest)) in
    let shape : (size_bytes n ++ (size_bytes (length k) ++ (k ++ v))) ++ rest
        ≡ size_bytes n ++ tail =
      simp append_assoc in
    rw
      (
        shape,
        ltb-false (length (size_bytes n ++ tail)) 4 (omega (arith, length-size_bytes n tail)),
        read_be-size_bytes n tail h,
        drop-size_bytes n tail,
      )
      (read_record_lem k v rest r h)
