-- ===== src/Io/Buffer/Bounds.antt =====
-- What the reads of src/io/buffer.h do on any input.
use mathlib.Core.Path.{subst}
use mini_hadoop.Common.{
  Bool-cases, inl, inr, ltb→lt, ℕ, ◌-◌, ◌^◌, ◌≤◌, ◌<◌, ◌≡◌, refl, List, [], ◌∷◌, length, take, drop,
  arith, Outcome, ok, throws, ltb,
}
use mini_hadoop.Common.Int.{ℤ, pos, negsuc, of_u32}
use mini_hadoop.Io.Buffer.{
  InputBuffer, be_value, Reader, ◌>>=◌, return, read_raw, read_byte, read_bool, read_unsigned_short,
  read_int, read_long, container_size, read_bytes, read_string, skip,
}
use mini_hadoop.Io.Buffer.Fields.{
  Kind, byte_kind, bool_kind, short_kind, int_kind, long_kind, bytes_kind, string_kind, Field,
  read_field, read_fields,
}

abbrev pub IsInside : InputBuffer → Type 0
IsInside b = (b.position ≤ length b.contents) × (length b.contents < 2 ^ 31)

abbrev pub Moves : InputBuffer → InputBuffer → Type 0
Moves b c = (c.contents ≡ b.contents) × (b.position ≤ c.position) × (c.position ≤ length b.contents)

-- A successful run moves the cursor forward, inside the buffer, leaves the bytes alone, and
-- returns a value of which `P` holds.
pub record StaysInside {A : Type 0} (P : A → Type 0) (m : Reader A) : Type 0 where
  pub run : (b c : InputBuffer) (a : A) → IsInside b → m b ≡ ok (a, c) → Moves b c × P a

abbrev Anything : {A : Type 0} → A → Type 0
Anything _ = Unit

return-StaysInside : {A : Type 0} (v : A) → StaysInside Anything (return v)
return-StaysInside v = record { run = λ b c a h e. (ground arith, tt) }

>>=-StaysInside :
    {A B : Type 0} (P : A → Type 0) (Q : B → Type 0) (m : Reader A) (f : A → Reader B)
    → StaysInside P m
    → ((a : A) → P a → StaysInside Q (f a))
    → StaysInside Q (m >>= f)
>>=-StaysInside {A} {B} P Q m f hm hf = record { run = λ b c a h e. go b c a h (m b) refl e }
  where
    go :
        (b c : InputBuffer) (a : B)
        → IsInside b
        → (r : Outcome (A × InputBuffer)) → m b ≡ r
        → elim r [ ok (x, b') ↦ f x b' | throws t ↦ throws t ] ≡ ok (a, c)
        → Moves b c × Q a
    go b c a h (throws t) er e = cc
    go b c a h (ok (x, b')) er e =
        let (first, px) = hm.run b b' x h er in
        let (second, qa) = (hf x px).run b' c a (ground arith) e in (ground arith, qa)

map-StaysInside :
    {A B : Type 0} {P : A → Type 0} (m : Reader A) (g : A → B)
    → StaysInside P m
    → StaysInside Anything (m >>= λ a. return (g a))
map-StaysInside {P} m g h = >>=-StaysInside P Anything m _ h (λ a _. return-StaysInside (g a))

-- A size that an int32_t gives is below 2 ^ 31.
abbrev IsSmall : ℤ → Type 0
IsSmall (pos n) = n < 2 ^ 31
IsSmall (negsuc n) = Unit

of_u32-IsSmall : (w : ℕ) → IsSmall (of_u32 w)
unfolding of_u32
of_u32-IsSmall w = elim (Bool-cases (ltb w (2 ^ 31))) [
  | inl e ↦ rw e (ltb→lt w (2 ^ 31) e)
  | inr e ↦ rw e tt
]

read_int-StaysInside : StaysInside IsSmall read_int
unfolding read_int
read_int-StaysInside = record {
  run = λ b c a h e.
      let w = be_value (take 4 (drop b.position b.contents)) in
      let same : of_u32 w ≡ a = ground arith in
      (ground arith, subst IsSmall same (of_u32-IsSmall w));
}

read_raw-StaysInside : (n : ℕ) → n < 2 ^ 31 → StaysInside Anything (read_raw n)
unfolding read_raw
read_raw-StaysInside n hn = record { run = λ b c a h e. (ground arith, tt) }

read_byte-StaysInside : StaysInside Anything read_byte
unfolding read_byte
read_byte-StaysInside = record { run = λ b c a h e. (ground arith, tt) }

read_unsigned_short-StaysInside : StaysInside Anything read_unsigned_short
unfolding read_unsigned_short
read_unsigned_short-StaysInside = record { run = λ b c a h e. (ground arith, tt) }

read_long-StaysInside : StaysInside Anything read_long
unfolding read_long
read_long-StaysInside = record { run = λ b c a h e. (ground arith, tt) }

container_size-StaysInside : (z : ℤ) → IsSmall z → StaysInside (λ n. n < 2 ^ 31) (container_size z)
unfolding container_size
container_size-StaysInside (pos n) h = record { run = λ b c a hb e. (ground arith, ground arith) }
container_size-StaysInside (negsuc n) h = record { run = λ b c a hb e. cc }

read_string-StaysInside : StaysInside Anything read_string
unfolding read_string
read_string-StaysInside = >>=-StaysInside IsSmall Anything read_int _ read_int-StaysInside (λ z hz.
    >>=-StaysInside _ Anything (container_size z) read_raw (container_size-StaysInside z hz)
      read_raw-StaysInside)

read_field-StaysInside : (k : Kind) → StaysInside Anything (read_field k)
unfolding read_bool read_bytes read_string
read_field-StaysInside byte_kind = map-StaysInside read_byte _ read_byte-StaysInside
read_field-StaysInside bool_kind =
    map-StaysInside read_bool _ (map-StaysInside read_byte _ read_byte-StaysInside)
read_field-StaysInside short_kind =
    map-StaysInside read_unsigned_short _ read_unsigned_short-StaysInside
read_field-StaysInside int_kind = map-StaysInside read_int _ read_int-StaysInside
read_field-StaysInside long_kind = map-StaysInside read_long _ read_long-StaysInside
read_field-StaysInside bytes_kind = map-StaysInside read_string _ read_string-StaysInside
read_field-StaysInside string_kind = map-StaysInside read_string _ read_string-StaysInside

read_fields-StaysInside : (ks : List Kind) → StaysInside Anything (read_fields ks)
read_fields-StaysInside [] = return-StaysInside []
read_fields-StaysInside (k ∷ ks) =
    >>=-StaysInside Anything Anything (read_field k) _ (read_field-StaysInside k)
      (λ f _. map-StaysInside (read_fields ks) (◌∷◌ f) (read_fields-StaysInside ks))

-- Whatever the bytes of a buffer below 2 GiB are, a sequence of reads that succeeds has moved the
-- cursor forward, not past the end, and has left the bytes alone.
pub read_fields_bounds :
    (ks : List Kind) (b c : InputBuffer) (fs : List Field)
    → b.position ≤ length b.contents
    → length b.contents < 2 ^ 31
    → read_fields ks b ≡ ok (fs, c)
    → (c.contents ≡ b.contents) × (b.position ≤ c.position) × (c.position ≤ length b.contents)
read_fields_bounds ks b c fs inside small e =
    ((read_fields-StaysInside ks).run b c fs (inside, small) e).0

-- `Skip` adds its argument to the cursor in a `size_t` before it compares: an argument within
-- 2 ^ 64 of a lower position passes the test and moves the cursor backwards.
pub skip_backwards :
    (b : InputBuffer) (k : ℕ)
    → 0 < k
    → k ≤ b.position
    → b.position ≤ length b.contents
    → length b.contents < 2 ^ 63
    → skip (2 ^ 64 - k) b ≡ ok (tt, record b { position = b.position - k })
unfolding skip
skip_backwards b k hk le inside small = ground arith
