-- ===== src/Io/Buffer/Truncation.antt =====
-- Messages of src/io/buffer.h that were cut off, and what the readers do with them.
use mathlib.Core.Path.{subst}
use native.Mathlib.Decide.{dec_lt}
use mini_hadoop.Common.{
  length-append, ℕ, ◌-◌, ◌^◌, ◌<◌, ◌≡◌, refl, true, List, [], ◌∷◌, ◌++◌, length, take, map, arith,
  throws, past_end, lt→ltb, All, length-take_of_le, take-append_of_le, take-append_of_ge,
  append-nil,
}
use mini_hadoop.Common.Int.{ℤ}
use mini_hadoop.Common.Text.{Bytes}
use mini_hadoop.Io.Buffer.{
  InputBuffer, Reader, ◌>>=◌, return, reset, advance, past_the_end, be16, be32, read_raw, read_byte,
  read_bool, read_unsigned_short, read_int, read_long, container_size, read_bytes, read_string,
}
use mini_hadoop.Io.Buffer.Cursor.{At, At-reset, Reads, advance-At, length-ahead}
use mini_hadoop.Io.Buffer.RoundTrip.{sized, long_bytes, size-Reads, read_byte-Reads}
use mini_hadoop.Io.Buffer.RoundTrip.{
  read_bool-Reads, read_unsigned_short-Reads, read_int-Reads, read_long-Reads, read_string-Reads,
}
use mini_hadoop.Io.Buffer.Fields.{
  read_fields-Reads, Field, byte, bool, short, int, long, bytes, string, kind, read_field,
  read_fields, write_fields, field_bytes, fields_bytes, IsFit, read_field-Reads,
  write_fields-append,
}

-- On a proper prefix of `bs`, with nothing behind it, `m` throws.
pub record Stops {A : Type 0} (m : Reader A) (bs : Bytes) : Type 0 where
  pub run : (b : InputBuffer) (k : ℕ) → k < length bs → At b (take k bs) → m b ≡ throws past_end

module _ (b : InputBuffer) (front : Bytes) (h : At b front) where
  past_the_end_short : (n : ℕ) → length front < n → n < 2 ^ 32 → past_the_end n b ≡ true
  past_the_end_short n less small =
      lt→ltb _ _ (omega (arith, length-ahead b front h, h.inside, h.small))

short-of : (k : ℕ) (bs : Bytes) → k < length bs → length (take k bs) < length bs
short-of k bs h = omega (arith, length-take_of_le k bs)

return-Stops : {A : Type 0} (v : A) → Stops (return v) []
return-Stops v = record { run = λ b k h at. absurd (omega arith) }

>>=-Stops :
    {A B : Type 0} (m : Reader A) (f : A → Reader B) {v : A} {front back : Bytes}
    → Reads m v front
    → Stops m front
    → Stops (f v) back
    → Stops (m >>= f) (front ++ back)
>>=-Stops m f {v} {front} {back} reads stops later = record {
  run = λ b k h at. elim (dec_lt k (length front)) [
    | yes lt ↦
        rw
          (stops.run b k lt (subst (At b) (take-append_of_le k front back (omega arith)) at), ◌>>=◌)
          refl
    | no ge ↦
        let at' : At b (front ++ take (k - length front) back) =
          subst (At b) (take-append_of_ge k front back (omega arith)) at in
        rw (reads.run b (take (k - length front) back) at', ◌>>=◌)
          (later.run (advance (length front) b) (k - length front)
            (omega (arith, length-append front back)) (advance-At b front _ at'))
  ];
}

map-Stops :
    {A B : Type 0} (m : Reader A) (g : A → B) {v : A} {bs : Bytes}
    → Reads m v bs
    → Stops m bs
    → Stops (m >>= λ a. return (g a)) bs
map-Stops m g {v} {bs} reads stops =
    subst (Stops _) (append-nil bs)
      (>>=-Stops m (λ a. return (g a)) reads stops (return-Stops (g v)))

read_raw-Stops : (bs : Bytes) → length bs < 2 ^ 31 → Stops (read_raw (length bs)) bs
unfolding read_raw
read_raw-Stops bs small = record {
  run = λ b k h at.
      rw (past_the_end_short b (take k bs) at (length bs) (short-of k bs h) (omega arith));
}

read_byte-Stops : (v : ℕ) → Stops read_byte (v ∷ [])
unfolding read_byte
read_byte-Stops v = record {
  run = λ b k h at. rw (past_the_end_short b _ at 1 (short-of k (v ∷ []) h) (omega arith));
}

read_unsigned_short-Stops : (v : ℕ) → Stops read_unsigned_short (be16 v)
unfolding read_unsigned_short
read_unsigned_short-Stops v = record {
  run = λ b k h at. rw (past_the_end_short b _ at 2 (short-of k (be16 v) h) (omega arith));
}

read_int-Stops : (n : ℕ) → Stops read_int (be32 n)
unfolding read_int
read_int-Stops n = record {
  run = λ b k h at. rw (past_the_end_short b _ at 4 (short-of k (be32 n) h) (omega arith));
}

read_long-Stops : (v : ℤ) → Stops read_long (long_bytes v)
unfolding read_long
read_long-Stops v = record {
  run = λ b k h at. rw (past_the_end_short b _ at 8 (short-of k (long_bytes v) h) (omega arith));
}

read_string-Stops : (s : Bytes) → length s < 2 ^ 31 → Stops read_string (sized s)
unfolding read_string container_size
read_string-Stops s hs =
    >>=-Stops read_int _ (size-Reads (length s) hs) (read_int-Stops _) (read_raw-Stops s hs)

read_bool-Stops : (v : ℕ) → Stops read_bool (v ∷ [])
unfolding read_bool
read_bool-Stops v = map-Stops read_byte _ (read_byte-Reads v) (read_byte-Stops v)

read_field-Stops : (f : Field) → IsFit f → Stops (read_field (kind f)) (field_bytes f)
unfolding read_bytes read_string
read_field-Stops (byte v) h = map-Stops read_byte byte (read_byte-Reads v) (read_byte-Stops v)
read_field-Stops (bool v) h = map-Stops read_bool bool (read_bool-Reads v) (read_bool-Stops _)
read_field-Stops (short v) h =
    map-Stops read_unsigned_short short (read_unsigned_short-Reads v h)
      (read_unsigned_short-Stops v)
read_field-Stops (int v) h = map-Stops read_int int (read_int-Reads v h) (read_int-Stops _)
read_field-Stops (long v) h = map-Stops read_long long (read_long-Reads v h) (read_long-Stops v)
read_field-Stops (bytes v) h =
    map-Stops read_string bytes (read_string-Reads v h) (read_string-Stops v h)
read_field-Stops (string v) h =
    map-Stops read_string string (read_string-Reads v h) (read_string-Stops v h)

read_fields-Stops :
    (fs : List Field) → All IsFit fs → Stops (read_fields (map kind fs)) (fields_bytes fs)
read_fields-Stops [] h = return-Stops []
read_fields-Stops (f ∷ fs) (hf, hfs) =
    >>=-Stops (read_field (kind f)) _ (read_field-Reads f hf) (read_field-Stops f hf) (
      map-Stops (read_fields (map kind fs)) (◌∷◌ f) (read_fields-Reads fs hfs)
        (read_fields-Stops fs hfs))

-- On the first `k` bytes of a message in range, `k` less than its length, the reads that match the
-- whole message throw "read past end".
pub read_fields_truncated :
    (fs : List Field) (k : ℕ)
    → All IsFit fs
    → length (write_fields [] fs) < 2 ^ 63
    → k < length (write_fields [] fs)
    → read_fields (map kind fs) (reset (take k (write_fields [] fs))) ≡ throws past_end
read_fields_truncated fs k h small less =
    let e = write_fields-append [] fs h in
    let less' : k < length (fields_bytes fs) = subst (λ (bs : Bytes). k < length bs) e less in
    let small' : length (fields_bytes fs) < 2 ^ 63 =
      subst (λ (bs : Bytes). length bs < 2 ^ 63) e small in
    let cut = take k (fields_bytes fs) in
    rw e (
      (read_fields-Stops fs h).run (reset cut) k less'
        (At-reset cut (omega (arith, length-take_of_le k (fields_bytes fs)))))
