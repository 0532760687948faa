-- ===== src/Io/Buffer.antt =====
-- src/io/buffer.h: `OutputBuffer` and `InputBuffer`.
pub mod Cursor
pub mod RoundTrip
pub mod Fields
pub mod Bounds
pub mod Truncation
mod Examples
use mini_hadoop.Common.{
  ℕ, zero, suc, ◌+◌, ◌*◌, ◌/◌, ◌%◌, ◌^◌, Bool, true, false, not, List, [], ◌∷◌, ◌++◌, length, take,
  drop, ltb, ◌==◌, if◌then◌else◌, Outcome, ok, throws, past_end, length_error,
}
use mini_hadoop.Common.Int.{ℤ, pos, negsuc, to_u32, of_u32, to_u64, of_u64, wrap32}
use mini_hadoop.Common.Text.{Bytes}

-- The bytes that `htons` and `htonl` leave in memory: big endian on every host.
abbrev pub be16 : ℕ → Bytes
be16 n = (n / 2 ^ 8 % 256) ∷ (n % 256) ∷ []

abbrev pub be32 : ℕ → Bytes
be32 n = (n / 2 ^ 24 % 256) ∷ (n / 2 ^ 16 % 256) ∷ (n / 2 ^ 8 % 256) ∷ (n % 256) ∷ []

-- What `ntohs` and `ntohl` make of bytes copied from memory.
abbrev pub be_value_from : ℕ → Bytes → ℕ
be_value_from acc [] = acc
be_value_from acc (b ∷ bs) = be_value_from (acc * 256 + b) bs

abbrev pub be_value : Bytes → ℕ
be_value = be_value_from 0

-- `buffer_`
abbrev pub OutputBuffer : Type 0
OutputBuffer = Bytes

unfoldable pub write_raw : OutputBuffer → Bytes → OutputBuffer
write_raw out bs = out ++ bs

unfoldable pub write_byte : OutputBuffer → ℕ → OutputBuffer
write_byte out v = out ++ (v ∷ [])

unfoldable pub write_bool : OutputBuffer → Bool → OutputBuffer
unfolding write_byte
write_bool out v = write_byte out (if v then 1 else 0)

-- `static_cast<uint16_t>` of an int16_t given by its bit pattern.
unfoldable pub write_short : OutputBuffer → ℕ → OutputBuffer
unfolding write_raw
write_short out v = write_raw out (be16 (v % 2 ^ 16))

unfoldable pub write_int : OutputBuffer → ℤ → OutputBuffer
unfolding write_raw
write_int out v = write_raw out (be32 (to_u32 v))

unfoldable pub write_long : OutputBuffer → ℤ → OutputBuffer
unfolding write_raw
write_long out v =
    let hi = be32 (to_u64 v / 2 ^ 32) in
    let lo = be32 (to_u64 v % 2 ^ 32) in write_raw (write_raw out hi) lo

-- `WriteBytes` and `WriteString` have the same body.
unfoldable pub write_bytes : OutputBuffer → Bytes → OutputBuffer
unfolding write_raw write_int
write_bytes out bs = write_raw (write_int out (wrap32 (pos (length bs)))) bs

unfoldable pub write_string : OutputBuffer → Bytes → OutputBuffer
unfolding write_raw write_int
write_string out s = write_raw (write_int out (wrap32 (pos (length s)))) s

-- `data_`, whose length is `size_`, and `pos_`.
pub record InputBuffer : Type 0 where
  pub contents : Bytes
  pub position : ℕ

-- `Reset`, and the constructor from a span.
abbrev pub reset : Bytes → InputBuffer
reset bs = record { contents = bs; position = 0 }

abbrev pub Reader : Type 0 → Type 0
Reader A = InputBuffer → Outcome (A × InputBuffer)

infixl 5 ◌>>=◌ ◌>>◌
abbrev pub ◌>>=◌ : {A B : Type 0} → Reader A → (A → Reader B) → Reader B
◌>>=◌ m f b = elim (m b) [ ok (a, b') ↦ f a b' | throws e ↦ throws e ]

abbrev pub ◌>>◌ : {B : Type 0} → Reader (Unit {0}) → Reader B → Reader B
m >> k = m >>= λ _. k

abbrev pub return : {A : Type 0} → A → Reader A
return a b = ok (a, b)

-- The test of `CheckBounds`; the sum is a `size_t`.
abbrev pub past_the_end : ℕ → InputBuffer → Bool
past_the_end need b = ltb (length b.contents) ((b.position + need) % 2 ^ 64)

abbrev pub advance : ℕ → InputBuffer → InputBuffer
advance n b = record b { position = (b.position + n) % 2 ^ 64 }

-- The bytes at the cursor.
abbrev pub ahead : InputBuffer → Bytes
ahead b = drop b.position b.contents

-- `size_ - pos_`
unfoldable pub remaining : InputBuffer → ℕ
remaining b = length (ahead b)

unfoldable pub read_raw : ℕ → Reader Bytes
read_raw n b = if past_the_end n b then throws past_end else ok (take n (ahead b), advance n b)

unfoldable pub read_byte : Reader ℕ
read_byte b =
    if past_the_end 1 b then throws past_end else ok (be_value (take 1 (ahead b)), advance 1 b)

unfoldable pub read_bool : Reader Bool
unfolding read_byte
read_bool = do v ← read_byte; return (not (v == 0))

-- `ReadUnsignedShort`; `ReadShort` returns the same 16 bits.
unfoldable pub read_unsigned_short : Reader ℕ
read_unsigned_short b =
    if past_the_end 2 b then throws past_end else ok (be_value (take 2 (ahead b)), advance 2 b)

unfoldable pub read_int : Reader ℤ
read_int b =
    if past_the_end 4 b
    then throws past_end
    else ok (of_u32 (be_value (take 4 (ahead b))), advance 4 b)

unfoldable pub read_long : Reader ℤ
read_long b =
    let hi = be_value (take 4 (ahead b)) in
    let lo = be_value (take 4 (drop 4 (ahead b))) in
    if past_the_end 8 b then throws past_end else ok (of_u64 (hi * 2 ^ 32 + lo), advance 8 b)

-- A container of an `int32_t` size: a negative one converts to more than any container holds.
unfoldable pub container_size : ℤ → Reader ℕ
container_size (pos n) = return n
container_size (negsuc n) = λ _. throws length_error

-- `ReadBytes` and `ReadString` have the same body.
unfoldable pub read_bytes : Reader Bytes
unfolding read_int container_size read_raw
read_bytes = do len ← read_int; n ← container_size len; read_raw n

unfoldable pub read_string : Reader Bytes
unfolding read_int container_size read_raw
read_string = do len ← read_int; n ← container_size len; read_raw n

unfoldable pub skip : ℕ → Reader (Unit {0})
skip n b = if past_the_end n b then throws past_end else ok (tt, advance n b)
