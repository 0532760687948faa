-- ===== src/Mapred/WordCount/Examples.antt =====
-- A word count of two lines.
use mini_hadoop.Common.{◌≡◌, refl, true, List, [], ◌∷◌, length, arith}
use mini_hadoop.Common.Int.{pos}
use mini_hadoop.Common.Text.{Bytes, codes, str_eq}
use mini_hadoop.Common.Text.Streams.{words}
use mini_hadoop.Mapred.JobTracker.{run_job, word_count_reduce}
use mini_hadoop.Mapred.JobTracker.Tally.{values_of}
use mini_hadoop.Mapred.TextReader.{records, unlines}
use mini_hadoop.Mapred.WordCount.{word_count_map, occurrences, counted, run_job-counts}

abbrev two_lines : List Bytes
two_lines = codes "to be or not" ∷ codes " to  be" ∷ []

line_words : words (codes " to  be") ≡ codes "to" ∷ codes "be" ∷ []
unfolding words
line_words = refl

run_job-counts_example :
    values_of (codes "be") (
      run_job length word_count_map word_count_reduce true 2
        (records 2 (record { file = unlines two_lines; position = pos 0 })))
    ≡ counted (occurrences (codes "be") two_lines)
run_job-counts_example =
    run_job-counts length true 2 two_lines 2 (codes "be") (omega arith) (ground arith) (omega arith)
      (unfold occurrences words str_eq in omega arith)
