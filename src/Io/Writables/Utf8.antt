-- ===== src/Io/Writables/Utf8.antt =====
-- `UTF8` of src/io/writable_types.h; its state is the byte string `value_`.
use mathlib.Core.Path.{subst}
use mini_hadoop.Common.{
  length-append, ok, ◌+◌, length-drop, [], ℕ, ◌%◌, ◌^◌, ◌<◌, ◌≡◌, sym, ap, ◌∙◌, arith, ◌++◌, length,
  take, drop, length-take_of_le, take-append-drop, append_assoc,
}
use mini_hadoop.Common.Text.{Bytes}
use mini_hadoop.Io.Buffer.{
  OutputBuffer, Reader, reset, ◌>>=◌, write_short, write_raw, read_unsigned_short, read_raw, be16,
}
use mini_hadoop.Io.Buffer.Cursor.{Reads-reset, Reads, >>=-Reads}
use mini_hadoop.Io.Buffer.RoundTrip.{read_unsigned_short-Reads, read_raw-Reads}

-- The length is cut to 16 bits, the bytes are not.
unfoldable pub write : OutputBuffer → Bytes → OutputBuffer
unfolding write_short write_raw
write out value = write_raw (write_short out (length value % 2 ^ 16)) value

unfoldable pub read_fields : Reader Bytes
unfolding read_unsigned_short read_raw
read_fields = do len ← read_unsigned_short; read_raw len

abbrev pub encoded : Bytes → Bytes
encoded value = be16 (length value % 2 ^ 16) ++ value

pub write-append : (out : OutputBuffer) (value : Bytes) → write out value ≡ out ++ encoded value
unfolding write
write-append out value =
    append_assoc out _ value
    ∙ (let e : length value % 2 ^ 16 % 2 ^ 16 ≡ length value % 2 ^ 16 = omega arith in
        ap (λ (n : ℕ). out ++ (be16 n ++ value)) e)

prefix-Reads :
    (value : Bytes) (n : ℕ)
    → n ≡ length value
    → n < 2 ^ 16
    → Reads read_fields value (be16 n ++ value)
unfolding read_fields
prefix-Reads value n e h =
    >>=-Reads read_unsigned_short _ (read_unsigned_short-Reads n h)
      (subst (λ (k : ℕ). Reads (read_raw k) value value) (sym e) (read_raw-Reads value))

kept-Reads :
    (value : Bytes)
    → Reads read_fields
        (take (length value % 2 ^ 16) value)
        (be16 (length value % 2 ^ 16) ++ take (length value % 2 ^ 16) value)
kept-Reads value =
    let kept = length value % 2 ^ 16 in
    prefix-Reads (take kept value) kept (sym (length-take_of_le kept value (omega arith)))
      (omega arith)

-- A string below 2 ^ 62 bytes is read back, from the start of the buffer that it was written to, as
-- its first (length mod 65536) bytes, with the rest of its bytes left behind the cursor.
pub read_fields-write_utf8 :
    (value : Bytes)
    → length value < 2 ^ 62
    → let kept = length value % 2 ^ 16 in
      read_fields (reset (write [] value))
      ≡ ok (take kept value, record { contents = write [] value; position = 2 + kept })
read_fields-write_utf8 value small =
    let kept = length value % 2 ^ 16 in
    let front = be16 kept ++ take kept value in
    let written : write [] value ≡ front ++ drop kept value =
      write-append [] value
      ∙ (ap (λ (v : Bytes). be16 kept ++ v) (sym (take-append-drop kept value))
          ∙ sym (append_assoc (be16 kept) (take kept value) (drop kept value))) in
    let size : length front ≡ 2 + kept =
      omega (arith, length-take_of_le kept value (omega arith)) in
    let run =
      Reads-reset read_fields (take kept value) front (drop kept value) (kept-Reads value)
        (omega (arith, length-append front (drop kept value), length-drop kept value, size)) in
    rw written (
      subst
        (λ (n : ℕ).
          read_fields (reset (front ++ drop kept value))
          ≡ ok (take kept value, record { contents = front ++ drop kept value; position = n }))
        size run)
