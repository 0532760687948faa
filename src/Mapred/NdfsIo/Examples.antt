-- ===== src/Mapred/NdfsIo/Examples.antt =====
-- The results b 2 and a 1 in a file of the sample cluster, written in blocks of three bytes and read
-- by a loop with three rounds.
use mini_hadoop.Common.{true, ◌≡◌, refl, [], ◌∷◌, arith, ok}
use mini_hadoop.Common.Decimal.{print_long}
use mini_hadoop.Common.Int.{pos}
use mini_hadoop.Common.Text.{codes}
use mini_hadoop.Mapred.NdfsIo.{
  NdfsLineRecordReader, records, open_reader, close_writer, write, write_all,
}
use mini_hadoop.Mapred.NdfsIo.Files.{records-write_all}
use mini_hadoop.Ndfs.DfsClient.Files.Sample.{
  path, start, node, empty, draws, name_of, draws-IsDistinct, cluster-IsFit, out_of_safe_mode,
  file_made, node_chosen, node_reached,
}
use mini_hadoop.Ndfs.DfsClient.Files.World.{world}

records-write_all_example :
    let cluster = world draws name_of 100 in
    let text = write_all [] ((codes "b", pos 2) ∷ (codes "a", pos 1) ∷ []) in
    (r : NdfsLineRecordReader) × ((open_reader cluster name_of path
        (close_writer cluster 3 path text empty).1).0
      ≡ ok r)
    × (records 3 r ≡ (pos 0, codes "b\t2") ∷ (pos 1, codes "a\t1") ∷ [])
unfolding write print_long
records-write_all_example =
    records-write_all path node [] cluster-IsFit draws name_of name_of 100 3 (codes "b", pos 2)
      ((codes "a", pos 1) ∷ []) empty start [] 16 3 ((refl, tt), ((refl, tt), tt)) refl
      out_of_safe_mode (file_made true) node_chosen node_reached draws-IsDistinct (omega arith)
      (omega arith) (omega arith) (omega arith) (omega arith) (omega arith)
