-- ===== src/Mapred/WordCount.antt =====
-- src/mapred/examples/wordcount.h: the mapper of the word count, and the word count as a job.
mod Examples
use mini_hadoop.Common.{
  ℕ, zero, suc, ◌+◌, ◌<◌, ◌≤◌, ◌^◌, ◌≡◌, refl, sym, ap, ap₂, ◌∙◌, Bool, true, false, List, [], ◌∷◌,
  ◌++◌, map, length, arith, All, if◌then◌else◌, Bool-cases, inl, inr,
}
use mini_hadoop.Common.Int.{ℤ, pos, pos_part, neg_part}
use mini_hadoop.Common.Text.{Bytes, str_eq}
use mini_hadoop.Common.Text.Streams.{words}
use mini_hadoop.Mapred.JobTracker.{MapOutput, run_job, word_count_reduce}
use mini_hadoop.Mapred.JobTracker.Counting.{run_job-sums}
use mini_hadoop.Mapred.JobTracker.Partitions.{map_outputs, weight-append}
use mini_hadoop.Mapred.JobTracker.Tally.{
  values_of, values_of-append, weigh, weigh-append, summary, total,
}
use mini_hadoop.Mapred.TextReader.{
  TextRecordReader, records, unlines, offsets, IsLine, records-unlines,
}

-- `WordCountMapper::Map`
unfoldable pub word_count_map : ℤ → Bytes → List MapOutput
unfolding words
word_count_map key value = map (λ word. (word, pos 1)) (words value)

-- How often the word is in the list, and in the lines.
abbrev pub count : Bytes → List Bytes → ℕ
count word [] = 0
count word (w ∷ ws) = if str_eq w word then suc (count word ws) else count word ws

unfoldable pub occurrences : Bytes → List Bytes → ℕ
occurrences word [] = 0
occurrences word (line ∷ lines) = count word (words line) + occurrences word lines

-- The entries of a word: its number, if it is there at all.
abbrev pub counted : ℕ → List ℤ
counted zero = []
counted (suc n) = pos (suc n) ∷ []

-- As many ones.
abbrev pub ones : ℕ → List ℤ
ones zero = []
ones (suc n) = pos 1 ∷ ones n

ones-append : (m n : ℕ) → ones m ++ ones n ≡ ones (m + n)
ones-append zero n = ap ones (omega arith)
ones-append (suc m) n =
    ap (◌∷◌ (pos 1)) (ones-append m n)
    ∙ (let e : suc (m + n) ≡ suc m + n = omega arith in ap ones e)

values_of-ones :
    (word : Bytes) (ws : List Bytes)
    → values_of word (map (λ w. (w, pos 1)) ws) ≡ ones (count word ws)
values_of-ones word [] = refl
values_of-ones word (w ∷ ws) = elim (Bool-cases (str_eq w word)) [
  | inl e ↦ rw e (ap (◌∷◌ (pos 1)) (values_of-ones word ws))
  | inr e ↦ rw e (values_of-ones word ws)
]

values_of-word_count_map :
    (word : Bytes) (key : ℤ) (line : Bytes)
    → values_of word (word_count_map key line) ≡ ones (count word (words line))
unfolding word_count_map
values_of-word_count_map word key line = values_of-ones word (words line)

values_of-map_outputs :
    (word : Bytes) (lines : List Bytes) (p : ℤ)
    → values_of word (map_outputs word_count_map (offsets p lines)) ≡ ones (occurrences word lines)
unfolding occurrences
values_of-map_outputs word [] p = refl
values_of-map_outputs word (line ∷ lines) p =
    values_of-append word (word_count_map p line) _
    ∙ ap₂ ◌++◌ (values_of-word_count_map word p line) (values_of-map_outputs word lines _)
    ∙ ones-append (count word (words line)) (occurrences word lines)

ones-total : (n : ℕ) → total (ones n) ≡ n
ones-total zero = refl
ones-total (suc n) = omega (arith, ones-total n)

ones-AllCounts : (n : ℕ) → weigh neg_part (ones n) ≡ 0
ones-AllCounts zero = refl
ones-AllCounts (suc n) = omega (arith, ones-AllCounts n)

summary-ones : (n : ℕ) → summary (ones n) ≡ counted n
summary-ones zero = refl
summary-ones (suc n) = ap (λ (m : ℕ). pos m ∷ []) (omega (arith, ones-total n))

-- The word count of a file of lines, with a unit of fuel for each line, at least one reduce task,
-- any hash, with or without the combiner: a word that is fewer than 2^63 times in the lines has one
-- entry in the results, with that number, and none if it is in no line.
pub run_job-counts :
    (hash : Bytes → ℕ) (combining : Bool) (n : ℕ) (lines : List Bytes) (fuel : ℕ) (word : Bytes)
    → 0 < n
    → All IsLine lines
    → length lines ≤ fuel
    → occurrences word lines < 2 ^ 63
    → values_of word (
        run_job hash word_count_map word_count_reduce combining n
          (records fuel (record { file = unlines lines; position = pos 0 })))
      ≡ counted (occurrences word lines)
run_job-counts hash combining n lines fuel word positive h enough bound =
    let read = records-unlines lines fuel (pos 0) h enough in
    let outputs = values_of-map_outputs word lines (pos 0) in
    ap
      (λ (rs : List (ℤ × Bytes)).
        values_of word (run_job hash word_count_map word_count_reduce combining n rs))
      read
    ∙ run_job-sums hash word_count_map combining n (offsets (pos 0) lines) word positive
        (rw (outputs) (ones-AllCounts (occurrences word lines)))
        (rw (outputs, ones-total (occurrences word lines)) bound)
    ∙ ap summary outputs
    ∙ summary-ones (occurrences word lines)
