-- ===== src/Mapred/JobTracker/Examples.antt =====
-- Concrete partitions of src/mapred/job_tracker.h.
use mini_hadoop.Common.{◌≡◌, refl, true, false, arith, List, [], ◌∷◌, length}
use mini_hadoop.Common.Int.{ℤ, pos, to_u64, of_u64}
use mini_hadoop.Common.Text.{Bytes, codes, str_eq}
use mini_hadoop.Common.Text.Order.{str_compare}
use mini_hadoop.Io.Writables.Utf8Order.{compare_to}
use mini_hadoop.Mapred.JobTracker.{
  MapOutput, group, group_loop, take_values, get_partition, word_count_reduce, run_job,
}
use mini_hadoop.Mapred.JobTracker.Counting.{run_job-sums}
use mini_hadoop.Mapred.JobTracker.Partitions.{map_outputs}
use mini_hadoop.Mapred.JobTracker.Tally.{values_of, summary}

-- A mapper that counts its line as one word.
abbrev one_word : ℤ → Bytes → List MapOutput
one_word _ line = (line, pos 1) ∷ []

abbrev four_lines : List (ℤ × Bytes)
four_lines = (pos 0, codes "b") ∷ (pos 2, codes "aa") ∷ (pos 5, codes "b") ∷ (pos 7, codes "c") ∷ []

-- Two partitions, with a hash that is the length of the word.
words_counted :
    run_job length one_word word_count_reduce true 2 four_lines
    ≡ (codes "aa", pos 1) ∷ (codes "b", pos 2) ∷ (codes "c", pos 1) ∷ []
unfolding run_job get_partition group group_loop take_values word_count_reduce compare_to
    str_compare to_u64 of_u64
words_counted = refl

run_job-sums_example :
    values_of (codes "b") (run_job length one_word word_count_reduce false 2 four_lines)
    ≡ summary (values_of (codes "b") (map_outputs one_word four_lines))
run_job-sums_example =
    run_job-sums length one_word false 2 four_lines (codes "b") (omega arith)
      (unfold str_eq in omega arith) (unfold str_eq in omega arith)
