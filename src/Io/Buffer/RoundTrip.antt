-- ===== src/Io/Buffer/RoundTrip.antt =====
-- What a read returns of what a write left: one lemma for each pair of methods of the buffers.
use mini_hadoop.Common.{
  ℕ, ◌+◌, ◌*◌, ◌/◌, ◌%◌, ◌^◌, ◌<◌, ◌≡◌, ap, ◌∙◌, Bool, true, false, [], ◌∷◌, ◌++◌, length, arith,
  ok, if◌then◌else◌,
}
use mini_hadoop.Common.Int.{
  ℤ, pos, to_u32, of_u32, to_u64, wrap32, IsInt32, IsInt64, of_u32-to_u32, of_u64-to_u64, to_u32-lt,
  to_u64-lt, wrap32_of_lt,
}
use mini_hadoop.Common.Text.{Bytes}
use mini_hadoop.Io.Buffer.{
  advance, be16, be32, be_value, read_raw, read_byte, read_bool, read_unsigned_short, read_int,
  read_long, container_size, read_bytes, read_string,
}
use mini_hadoop.Io.Buffer.Cursor.{>>=-Reads, return-Reads, Reads, past_the_end_At, take-ahead_At}

pub be_value-be32 : (n : ℕ) → n < 2 ^ 32 → be_value (be32 n) ≡ n
be_value-be32 n h = omega arith

be_value-be16 : (n : ℕ) → n < 2 ^ 16 → be_value (be16 n) ≡ n
be_value-be16 n h = omega arith

-- The bytes that each `write` appends.
abbrev pub long_bytes : ℤ → Bytes
long_bytes v = be32 (to_u64 v / 2 ^ 32) ++ be32 (to_u64 v % 2 ^ 32)

abbrev pub sized : Bytes → Bytes
sized s = be32 (to_u32 (wrap32 (pos (length s)))) ++ s

pub read_raw-Reads : (bs : Bytes) → Reads (read_raw (length bs)) bs bs
unfolding read_raw
read_raw-Reads bs = record {
  run = λ b rest h. rw (past_the_end_At b bs rest h, take-ahead_At b bs rest h);
}

pub read_byte-Reads : (v : ℕ) → Reads read_byte v (v ∷ [])
unfolding read_byte
read_byte-Reads v = record {
  run = λ b rest h.
      rw (past_the_end_At b (v ∷ []) rest h, take-ahead_At b (v ∷ []) rest h)
        (ap (λ (x : ℕ). ok (x, advance 1 b)) (omega arith));
}

pub read_int-Reads : (v : ℤ) → IsInt32 v → Reads read_int v (be32 (to_u32 v))
unfolding read_int
read_int-Reads v hv = record {
  run = λ b rest h.
      rw (past_the_end_At b (be32 (to_u32 v)) rest h, take-ahead_At b (be32 (to_u32 v)) rest h)
        (ap (λ (x : ℤ). ok (x, advance 4 b))
          (ap of_u32 (be_value-be32 (to_u32 v) (to_u32-lt v)) ∙ of_u32-to_u32 v hv));
}

pub read_unsigned_short-Reads : (v : ℕ) → v < 2 ^ 16 → Reads read_unsigned_short v (be16 v)
unfolding read_unsigned_short
read_unsigned_short-Reads v hv = record {
  run = λ b rest h.
      rw (past_the_end_At b (be16 v) rest h, take-ahead_At b (be16 v) rest h)
        (ap (λ (x : ℕ). ok (x, advance 2 b)) (be_value-be16 v hv));
}

pub read_bool-Reads : (v : Bool) → Reads read_bool v ((if v then 1 else 0) ∷ [])
unfolding read_bool
read_bool-Reads true = >>=-Reads read_byte _ (read_byte-Reads 1) (return-Reads true)
read_bool-Reads false = >>=-Reads read_byte _ (read_byte-Reads 0) (return-Reads false)

pub read_long-Reads : (v : ℤ) → IsInt64 v → Reads read_long v (long_bytes v)
unfolding read_long
read_long-Reads v hv = record {
  run = λ b rest h.
      let hi = to_u64 v / 2 ^ 32 in
      let lo = to_u64 v % 2 ^ 32 in
      let joined : hi * 2 ^ 32 + lo ≡ to_u64 v = omega arith in
      rw (
        past_the_end_At b (long_bytes v) rest h,
        h.bytes_ahead,
        be_value-be32 hi (omega (arith, to_u64-lt v)),
        be_value-be32 lo (omega arith),
        joined,
        of_u64-to_u64 v hv,
      );
}

pub container_size-Reads : (n : ℕ) → Reads (container_size (pos n)) n []
unfolding container_size
container_size-Reads n = return-Reads n

pub size-Reads : (n : ℕ) → n < 2 ^ 31 → Reads read_int (pos n) (be32 (to_u32 (wrap32 (pos n))))
size-Reads n h = rw (wrap32_of_lt n h) (read_int-Reads (pos n) h)

-- A string below 2 GiB comes back as it was written.
pub read_string-Reads : (s : Bytes) → length s < 2 ^ 31 → Reads read_string s (sized s)
unfolding read_string
read_string-Reads s hs = >>=-Reads read_int _ (size-Reads (length s) hs) (
    >>=-Reads (container_size (pos (length s))) read_raw (container_size-Reads (length s))
      (read_raw-Reads s))

pub read_bytes-Reads : (s : Bytes) → length s < 2 ^ 31 → Reads read_bytes s (sized s)
unfolding read_bytes read_string
read_bytes-Reads s hs = read_string-Reads s hs
