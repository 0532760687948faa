-- ===== src/Ndfs/DataNode/Reports.antt =====
-- The messages of src/ndfs/data_node.h, as the NameNode handles them.
use mini_hadoop.Common.{◌^◌, ◌<◌, ◌≡◌, sym, subst, List, [], ◌∷◌, length, All, ok}
use mini_hadoop.Common.Int.{ℤ, pos, IsInt32, IsInt64, wrap32, wrap32_of_lt}
use mini_hadoop.Common.Text.{Bytes}
use mini_hadoop.Io.Buffer.{reset, read_int, read_long, read_string, container_size}
use mini_hadoop.Io.Buffer.Cursor.{Reads, >>=-Reads, map-Reads, return-Reads}
use mini_hadoop.Io.Buffer.RoundTrip.{
  read_int-Reads, read_long-Reads, read_string-Reads, size-Reads, container_size-Reads,
}
use mini_hadoop.Io.Buffer.Fields.{IsFit, int, fields_bytes, write_fields, read_message}
use mini_hadoop.Ndfs.FsNamesystem.{FsNamesystem, Block}
use mini_hadoop.Ndfs.FsNamesystem.DataNodes.{heartbeat, block_report}
use mini_hadoop.Ndfs.NameNode.{read_reported, read_reports, handle_heartbeat, handle_block_report}
use mini_hadoop.Ndfs.BlockStorage.{BlockStorage, get_block_report}
use mini_hadoop.Ndfs.DataNode.{heartbeat_request, reported_fields, block_report_request}
use mini_hadoop.Ndfs.DfsClient.Protocol.{IsFitBlock, read_block-Reads}

reported_fields-IsFit : (bs : List Block) → All IsFitBlock bs → All IsFit (reported_fields bs)
reported_fields-IsFit [] h = tt
reported_fields-IsFit (b ∷ bs) ((hi, hb, hs), h) = (hi, (hb, (hs, reported_fields-IsFit bs h)))

read_reports-Reads :
    (bs : List Block)
    → All IsFitBlock bs
    → Reads (read_reports (length bs)) bs (fields_bytes (reported_fields bs))
read_reports-Reads [] h = return-Reads []
read_reports-Reads (b ∷ bs) (hb, h) =
    >>=-Reads read_reported _ (read_block-Reads b hb)
      (map-Reads (read_reports (length bs)) (◌∷◌ b) (read_reports-Reads bs h))

-- The report that a DataNode makes of its block files, if its values fit their C++ types, is handled
-- by the NameNode as `block_report` of just these blocks, and answered with 1.
pub handle_block_report-get_block_report :
    (name : Bytes) (storage : BlockStorage) (s : FsNamesystem)
    → length name < 2 ^ 31
    → All IsFitBlock (get_block_report storage)
    → length (get_block_report storage) < 2 ^ 31
    → length (write_fields [] (block_report_request name storage)) < 2 ^ 63
    → let request = write_fields [] (block_report_request name storage) in
      handle_block_report s (reset request)
      ≡ ok (
        (block_report name (get_block_report storage) s, write_fields [] (int (pos 1) ∷ [])),
        record { contents = request; position = length request },
      )
unfolding handle_block_report
handle_block_report-get_block_report name storage s hn hb few small =
    let bs = get_block_report storage in
    let count : IsInt32 (wrap32 (pos (length bs))) =
      subst IsInt32 (sym (wrap32_of_lt (length bs) few)) few in
    read_message (handle_block_report s) _ (block_report_request name storage)
      (hn, (count, reported_fields-IsFit bs hb)) small
      (>>=-Reads read_string _ (read_string-Reads name hn) (
        >>=-Reads read_int _ (size-Reads (length bs) few) (
          >>=-Reads (container_size (pos (length bs))) _ (container_size-Reads (length bs))
            (map-Reads (read_reports (length bs)) _ (read_reports-Reads bs hb)))))

-- A heartbeat likewise.
pub handle_heartbeat_lem :
    (now : ℤ) (name host : Bytes) (port capacity remaining : ℤ) (s : FsNamesystem)
    → length name < 2 ^ 31
    → length host < 2 ^ 31
    → IsInt32 port
    → IsInt64 capacity
    → IsInt64 remaining
    → length (write_fields [] (heartbeat_request name host port capacity remaining)) < 2 ^ 63
    → let request = write_fields [] (heartbeat_request name host port capacity remaining) in
      handle_heartbeat now s (reset request)
      ≡ ok (
        (heartbeat now name host port capacity remaining s, []),
        record { contents = request; position = length request },
      )
unfolding handle_heartbeat
handle_heartbeat_lem now name host port capacity remaining s hn hh hp hc hr small =
    read_message (handle_heartbeat now s) _ (heartbeat_request name host port capacity remaining)
      (hn, (hh, (hp, (hc, (hr, tt))))) small
      (>>=-Reads read_string _ (read_string-Reads name hn) (
        >>=-Reads read_string _ (read_string-Reads host hh) (
          >>=-Reads read_int _ (read_int-Reads port hp) (
            >>=-Reads read_long _ (read_long-Reads capacity hc)
              (map-Reads read_long _ (read_long-Reads remaining hr))))))
