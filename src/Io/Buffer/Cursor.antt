-- ===== src/Io/Buffer/Cursor.antt =====
-- A reader seen as a parser of the bytes at the cursor: what it reads, and the rule for `>>=`.
use mathlib.Core.Path.{subst}
use mini_hadoop.Common.{
  append-nil, ℕ, ◌+◌, ◌-◌, ◌%◌, ◌^◌, ◌≤◌, ◌<◌, ◌≡◌, refl, sym, ap, ◌∙◌, false, [], ◌++◌, length,
  take, drop, length-append, length-drop, take-append, drop-append, drop-drop, append_assoc, arith,
  ok, ltb-false,
}
use mini_hadoop.Common.Text.{Bytes}
use mini_hadoop.Io.Buffer.{InputBuffer, Reader, ◌>>=◌, return, advance, ahead, past_the_end}

-- The cursor stands before `bs`, and no `size_t` sum can wrap.
pub record At (b : InputBuffer) (bs : Bytes) : Type 0 where
  pub bytes_ahead : ahead b ≡ bs
  pub inside : b.position ≤ length b.contents
  pub small : length b.contents < 2 ^ 63

-- `m` consumes exactly `bs` and returns `v`, whatever follows.
pub record Reads {A : Type 0} (m : Reader A) (v : A) (bs : Bytes) : Type 0 where
  pub run :
      (b : InputBuffer) (rest : Bytes) → At b (bs ++ rest) → m b ≡ ok (v, advance (length bs) b)

pub length-ahead :
    (b : InputBuffer) (bs : Bytes) → At b bs → length bs ≡ length b.contents - b.position
length-ahead b bs h = ap length (sym h.bytes_ahead) ∙ length-drop b.position b.contents

module _ (b : InputBuffer) (bs rest : Bytes) (h : At b (bs ++ rest)) where
  fits : b.position + length bs ≤ length b.contents
  fits = omega (arith, length-ahead b (bs ++ rest) h, length-append bs rest, h.inside)

  no_wrap : (b.position + length bs) % 2 ^ 64 ≡ b.position + length bs
  no_wrap = omega (arith, fits, h.small)

  pub past_the_end_At : past_the_end (length bs) b ≡ false
  past_the_end_At = rw no_wrap (ltb-false _ _ fits)

  pub take-ahead_At : take (length bs) (ahead b) ≡ bs
  take-ahead_At = rw h.bytes_ahead (take-append bs rest)

  pub advance-At : At (advance (length bs) b) rest
  advance-At = record {
    bytes_ahead = rw no_wrap (
        sym (drop-drop b.position (length bs) b.contents)
        ∙ ap (λ (xs : Bytes). drop (length bs) xs) h.bytes_ahead
        ∙ drop-append bs rest);
    inside = rw no_wrap fits;
    small = h.small;
  }

pub advance-advance : (b : InputBuffer) (m n : ℕ) → advance n (advance m b) ≡ advance (m + n) b
advance-advance b m n =
    let e : ((b.position + m) % 2 ^ 64 + n) % 2 ^ 64 ≡ (b.position + (m + n)) % 2 ^ 64 =
      omega arith in
    ap (λ (p : ℕ). let r : InputBuffer = record b { position = p } in r) e

pub At-reset : (bs : Bytes) → length bs < 2 ^ 63 → At (record { contents = bs; position = 0 }) bs
At-reset bs h = record { bytes_ahead = refl; inside = omega arith; small = h }

pub >>=-Reads :
    {A B : Type 0} (m : Reader A) (f : A → Reader B) {v : A} {w : B} {front back : Bytes}
    → Reads m v front
    → Reads (f v) w back
    → Reads (m >>= f) w (front ++ back)
>>=-Reads m f {v} {w} {front} {back} hm hf = record {
  run = λ b rest h.
      let h' : At b (front ++ (back ++ rest)) = subst (At b) (append_assoc front back rest) h in
      rw (hm.run b (back ++ rest) h', ◌>>=◌)
        (hf.run (advance (length front) b) rest (advance-At b front (back ++ rest) h')
          ∙ rw (advance-advance b (length front) (length back), length-append front back));
}

pub return-Reads : {A : Type 0} (v : A) → Reads (return v) v []
return-Reads v = record {
  run = λ b rest h.
      let e : (b.position + 0) % 2 ^ 64 ≡ b.position = omega (arith, h.inside, h.small) in
      ap (λ (p : ℕ). let r : InputBuffer = record b { position = p } in ok (v, r)) (sym e);
}

-- Reading and then packing the value reads the same bytes.
pub map-Reads :
    {A B : Type 0} (m : Reader A) (g : A → B) {v : A} {bs : Bytes}
    → Reads m v bs
    → Reads (m >>= λ a. return (g a)) (g v) bs
map-Reads m g {v} {bs} h =
    subst (Reads _ _) (append-nil bs) (>>=-Reads m (λ a. return (g a)) h (return-Reads (g v)))

-- A reader of the first bytes of a buffer, on that buffer.
pub Reads-reset :
    {A : Type 0} (m : Reader A) (v : A) (bs rest : Bytes)
    → Reads m v bs
    → length (bs ++ rest) < 2 ^ 63
    → m (record { contents = bs ++ rest; position = 0 })
      ≡ ok (v, record { contents = bs ++ rest; position = length bs })
Reads-reset m v bs rest h small =
    let end : (0 + length bs) % 2 ^ 64 ≡ length bs = omega (arith, length-append bs rest) in
    h.run (record { contents = bs ++ rest; position = 0 }) rest (At-reset (bs ++ rest) small)
    ∙ ap
        (λ (p : ℕ).
          let r : InputBuffer = record { contents = bs ++ rest; position = p } in ok (v, r))
        end
