-- ===== src/Mapred/TextReader.antt =====
-- src/mapred/api/input_format.h: `TextRecordReader`. The stream is the bytes that are left of the
-- file.
use mini_hadoop.Common.{
  ℕ, zero, suc, ◌≤◌, ◌≡◌, refl, ap, false, List, [], ◌∷◌, ◌++◌, length, Option, none, some, ◌==◌,
  All, arith,
}
use mini_hadoop.Common.Int.{ℤ, pos, ◌+ℤ◌, wrap64}
use mini_hadoop.Common.Text.{Bytes}
use mini_hadoop.Common.Text.Streams.{getline_loop, getline}

-- `file_` and `pos_`
pub record TextRecordReader : Type 0 where
  pub file : Bytes
  pub position : ℤ

-- `Next`: the key, the value and the reader afterwards. Both tests of `pos_` do the same.
unfoldable pub next : TextRecordReader → Option (ℤ × Bytes × TextRecordReader)
next r = elim (getline 10 r.file) [
  | none ↦ none
  | some (line, rest) ↦ some (
    r.position,
    line,
    record { file = rest; position = wrap64 (wrap64 (r.position +ℤ pos (length line)) +ℤ pos 1) },
  )
]

-- All records, one for each unit of fuel at most.
unfoldable pub records : ℕ → TextRecordReader → List (ℤ × Bytes)
unfolding next
records zero r = []
records (suc fuel) r = elim (next r) [
  | none ↦ []
  | some (key, line, r') ↦ (key, line) ∷ records fuel r'
]

-- Lines that end in a line feed each.
abbrev pub unlines : List Bytes → Bytes
unlines [] = []
unlines (line ∷ lines) = line ++ (10 ∷ unlines lines)

abbrev pub offsets : ℤ → List Bytes → List (ℤ × Bytes)
offsets p [] = []
offsets p (line ∷ lines) =
    (p, line) ∷ offsets (wrap64 (wrap64 (p +ℤ pos (length line)) +ℤ pos 1)) lines

abbrev pub IsLine : Bytes → Type 0
IsLine = All (λ c. (c == 10) ≡ false)

getline_loop-append :
    (line rest : Bytes) → IsLine line → getline_loop 10 (line ++ (10 ∷ rest)) ≡ (line, rest)
getline_loop-append [] rest h = refl
getline_loop-append (c ∷ line) rest (hc, h) = rw (hc, getline_loop-append line rest h) refl

getline-append :
    (line rest : Bytes) → IsLine line → getline 10 (line ++ (10 ∷ rest)) ≡ some (line, rest)
getline-append [] rest h = refl
getline-append (c ∷ line) rest h = ap some (getline_loop-append (c ∷ line) rest h)

-- With a unit of fuel for each line, the records of a file of lines are its lines with their offsets.
pub records-unlines :
    (lines : List Bytes) (fuel : ℕ) (p : ℤ)
    → All IsLine lines
    → length lines ≤ fuel
    → records fuel (record { file = unlines lines; position = p }) ≡ offsets p lines
unfolding records next
records-unlines [] zero p h hf = refl
records-unlines [] (suc fuel) p h hf = refl
records-unlines (line ∷ lines) zero p h hf = absurd (omega (arith, hf))
records-unlines (line ∷ lines) (suc fuel) p (hl, h) hf =
    rw (records, next, getline-append line (unlines lines) hl)
      (ap (λ (rs : List (ℤ × Bytes)). (p, line) ∷ rs)
        (records-unlines lines fuel (wrap64 (wrap64 (p +ℤ pos (length line)) +ℤ pos 1)) h
          (omega (arith, hf))))
