-- ===== src/Ipc/Socket/Stream.antt =====
-- How the bytes of a stream are cut into segments makes no difference to `ReadFull`.
use mini_hadoop.Common.{
  length-drop, take-append-drop, length-take_of_le, ℕ, zero, suc, ◌+◌, ◌-◌, ◌<◌, ◌≡◌, ◌≢◌, refl,
  sym, ap, subst, ◌∙◌, [], ◌∷◌, ◌++◌, append_assoc, Option, none, some, length, length-append, take,
  drop, leb, arith, All, Bool-cases, inl, inr,
}
use mini_hadoop.Common.Text.{Bytes}
use mini_hadoop.Ipc.Socket.{Incoming, prepend, read_full}

abbrev pub concat : Incoming → Bytes
concat [] = []
concat (s ∷ segments) = s ++ concat segments

-- The segments carry these bytes, and none of them is empty.
abbrev pub Delivers : Incoming → Bytes → Type 0
Delivers segments bs = (concat segments ≡ bs) × All (λ s. s ≢ []) segments

-- What is left of the stream after its first `len` bytes.
abbrev pub RestOf : ℕ → Bytes → Option (Bytes × Incoming) → Type 0
RestOf len bs none = length bs < len
RestOf len bs (some (front, rest)) =
    (length front ≡ len) × (front ++ concat rest ≡ bs) × All (λ s. s ≢ []) rest

prepend-RestOf :
    (s : Bytes) (len : ℕ) (bs : Bytes) (o : Option (Bytes × Incoming))
    → RestOf len bs o
    → RestOf (length s + len) (s ++ bs) (prepend s o)
prepend-RestOf s len bs none h = omega (arith, length-append s bs)
prepend-RestOf s len bs (some (front, rest)) (hl, hc, hn) = (
  omega (arith, length-append s front),
  append_assoc s front (concat rest) ∙ ap (λ (x : Bytes). s ++ x) hc,
  hn,
)

-- A list of bytes splits in one way at a given length.
append_cancel :
    (xs ys us vs : Bytes) → xs ++ us ≡ ys ++ vs → length xs ≡ length ys → (xs ≡ ys) × (us ≡ vs)
append_cancel [] [] us vs e h = (refl, e)
append_cancel [] (y ∷ ys) us vs e h = absurd (omega (arith, h))
append_cancel (x ∷ xs) [] us vs e h = absurd (omega (arith, h))
append_cancel (x ∷ xs) (y ∷ ys) us vs e h =
    let shorter : length xs ≡ length ys = omega (arith, h) in
    let tails : xs ++ us ≡ ys ++ vs = cc in
    let (same, rest) = append_cancel xs ys us vs tails shorter in (cc, rest)

read_full-RestOf :
    (len : ℕ) (segments : Incoming)
    → All (λ s. s ≢ []) segments
    → RestOf len (concat segments) (read_full len segments)
unfolding read_full
read_full-RestOf zero segments h = (refl, refl, h)
read_full-RestOf (suc len) [] h = omega arith
read_full-RestOf (suc len) ([] ∷ segments) (hs, h) = absurd (hs refl)
read_full-RestOf (suc len) ((b ∷ s) ∷ segments) (hs, h) =
    elim (Bool-cases (leb (length (b ∷ s)) (suc len))) [
      | inl e ↦
          let sum : length (b ∷ s) + (suc len - length (b ∷ s)) ≡ suc len = ground arith in
          rw e (
            subst
              (λ (n : ℕ).
                RestOf n ((b ∷ s) ++ concat segments)
                  (prepend (b ∷ s) (read_full (suc len - length (b ∷ s)) segments)))
              sum
              (prepend-RestOf (b ∷ s) (suc len - length (b ∷ s)) (concat segments) _
                (read_full-RestOf (suc len - length (b ∷ s)) segments h)))
      | inr e ↦
          let short : len < length s = ground arith in
          let not_empty : drop len s ≢ [] =
            λ e'. let e'' = ap length e' in omega (arith, short, e'', length-drop len s) in
          rw e (
            ap suc (length-take_of_le len s (omega arith)),
            ap (λ (x : Bytes). b ∷ x)
                (sym (append_assoc (take len s) (drop len s) (concat segments))
                  ∙ ap (λ (x : Bytes). x ++ concat segments) (take-append-drop len s)),
            (not_empty, h),
          )
    ]

-- `ReadFull` of as many bytes as `front` has gets `front`, however the stream was cut, and leaves
-- the rest.
pub read_full-Delivers :
    (front rest : Bytes) (segments : Incoming)
    → Delivers segments (front ++ rest)
    → (left : Incoming) × (read_full (length front) segments ≡ some (front, left))
      × Delivers left rest
read_full-Delivers front rest segments (hc, hn) =
    go (read_full (length front) segments) (read_full-RestOf (length front) segments hn)
  where
    go :
        (o : Option (Bytes × Incoming))
        → RestOf (length front) (concat segments) o
        → (left : Incoming) × (o ≡ some (front, left)) × Delivers left rest
    go none h = absurd (let e = ap length hc in omega (arith, h, e, length-append front rest))
    go (some (got, left)) (hl, he, hn') =
        let (same, same_rest) = append_cancel got front (concat left) rest (he ∙ hc) hl in
        (left, ap (λ (x : Bytes). some (x, left)) same, (same_rest, hn'))

-- A stream that ends too early gives -1.
pub read_full_short :
    (len : ℕ) (bs : Bytes) (segments : Incoming)
    → Delivers segments bs
    → length bs < len
    → read_full len segments ≡ none
read_full_short len bs segments (hc, hn) less =
    go (read_full len segments) (read_full-RestOf len segments hn)
  where
    go : (o : Option (Bytes × Incoming)) → RestOf len (concat segments) o → o ≡ none
    go none h = refl
    go (some (got, left)) (hl, he, hn') =
        absurd (
          let e = ap length (he ∙ hc) in
          omega (arith, hl, e, less, length-append got (concat left)))
