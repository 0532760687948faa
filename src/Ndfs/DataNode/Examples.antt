-- ===== src/Ndfs/DataNode/Examples.antt =====
-- The report of a DataNode with two block files.
use mini_hadoop.Common.{All, ◌≡◌, ◌<◌, ◌^◌, [], ◌∷◌, length, ok, arith}
use mini_hadoop.Common.Int.{pos}
use mini_hadoop.Common.Text.{codes}
use mini_hadoop.Io.Buffer.{reset, write_int, write_string, write_long, write_raw}
use mini_hadoop.Io.Buffer.Fields.{int, write_fields}
use mini_hadoop.Ndfs.FsNamesystem.{initial}
use mini_hadoop.Ndfs.FsNamesystem.DataNodes.{block_report}
use mini_hadoop.Ndfs.NameNode.{handle_block_report}
use mini_hadoop.Ndfs.BlockStorage.{BlockStorage, get_block_report}
use mini_hadoop.Ndfs.DataNode.{block_report_request}
use mini_hadoop.Ndfs.DfsClient.Protocol.{IsFitBlock}
use mini_hadoop.Ndfs.DataNode.Reports.{handle_block_report-get_block_report}

abbrev storage : BlockStorage
storage = (pos 7, 1 ∷ 2 ∷ []) ∷ (pos 8, []) ∷ []

storage-IsFit : All IsFitBlock (get_block_report storage)
unfolding get_block_report
storage-IsFit =
    ((omega arith, omega arith, omega arith), ((omega arith, omega arith, omega arith), tt))

few : length (get_block_report storage) < 2 ^ 31
unfolding get_block_report
few = omega arith

small : length (write_fields [] (block_report_request (codes "dn1") storage)) < 2 ^ 63
unfolding get_block_report write_int write_string write_long write_raw
small = omega arith

handle_block_report-get_block_report_example :
    let request = write_fields [] (block_report_request (codes "dn1") storage) in
    handle_block_report initial (reset request)
    ≡ ok (
      (
        block_report (codes "dn1") (get_block_report storage) initial,
        write_fields [] (int (pos 1) ∷ []),
      ),
      record { contents = request; position = length request },
    )
handle_block_report-get_block_report_example =
    handle_block_report-get_block_report (codes "dn1") storage initial (omega arith) storage-IsFit
      few small
