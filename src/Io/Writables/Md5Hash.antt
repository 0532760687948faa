-- ===== src/Io/Writables/Md5Hash.antt =====
-- `MD5Hash` of src/io/md5.h; its state is `digest_`. The digest function is OpenSSL's `MD5`, which
-- the parameter `md5` stands for.
use mini_hadoop.Common.{
  ok, append-nil, ◌++◌, ◌<◌, ◌^◌, subst, ◌-◌, ℕ, ◌+◌, ◌/◌, ◌%◌, ◌≡◌, arith, [], ◌∷◌, length, ltb,
  if◌then◌else◌, All, refl,
}
use mini_hadoop.Common.Text.{Bytes, IsByte}
use mini_hadoop.Io.Buffer.{OutputBuffer, Reader, reset, write_raw, read_raw}
use mini_hadoop.Io.Buffer.Cursor.{Reads, Reads-reset}
use mini_hadoop.Io.Buffer.RoundTrip.{read_raw-Reads}

-- `kMD5Len`
abbrev pub md5_len : ℕ
md5_len = 16

unfoldable pub compute : (Bytes → Bytes) → Bytes → Bytes
compute md5 bs = md5 bs

unfoldable pub write : OutputBuffer → Bytes → OutputBuffer
write out digest = write_raw out digest

unfoldable pub read_fields : Reader Bytes
read_fields = read_raw md5_len

hex_digit : ℕ → ℕ
hex_digit n = if ltb n 10 then b'0' + n else b'a' + (n - 10)

-- `std::hex` with width 2 and fill '0'.
unfoldable pub to_hex_string : Bytes → Bytes
unfolding hex_digit
to_hex_string [] = []
to_hex_string (b ∷ bs) = hex_digit (b / 16) ∷ hex_digit (b % 16) ∷ to_hex_string bs

-- A digest of 16 bytes comes back as it was written, from the start of the buffer that it was
-- written to.
pub read_fields-write_digest :
    (digest : Bytes)
    → length digest ≡ md5_len
    → read_fields (reset (write [] digest))
      ≡ ok (digest, record { contents = write [] digest; position = md5_len })
unfolding write read_fields write_raw
read_fields-write_digest digest h =
    let reads : Reads read_fields digest digest =
      subst (λ (n : ℕ). Reads (read_raw n) digest digest) h (read_raw-Reads digest) in
    let small : length (digest ++ []) < 2 ^ 63 = rw append-nil (omega arith) in
    let run = Reads-reset read_fields digest digest [] reads small in
    let written : read_fields (reset (write [] digest))
        ≡ ok (digest, record { contents = write [] digest; position = length digest }) =
      subst
        (λ (bs : Bytes).
          read_fields (reset bs) ≡ ok (digest, record { contents = bs; position = length digest }))
        (append-nil digest) run in
    subst
      (λ (n : ℕ).
        read_fields (reset (write [] digest))
        ≡ ok (digest, record { contents = write [] digest; position = n }))
      h written

-- Two byte strings with the same hexadecimal form are equal.
pub to_hex_string_injective :
    (s t : Bytes) → All IsByte s → All IsByte t → to_hex_string s ≡ to_hex_string t → s ≡ t
unfolding to_hex_string
to_hex_string_injective [] [] hs ht e = refl
to_hex_string_injective [] (b ∷ t) hs ht e = cc
to_hex_string_injective (a ∷ s) [] hs ht e = cc
to_hex_string_injective (a ∷ s) (b ∷ t) (ha, hs) (hb, ht) e =
    ground (arith, to_hex_string_injective s t)
