-- ===== src/Ndfs/DataNode.antt =====
-- src/ndfs/data_node.h: the messages that a DataNode sends to the NameNode. Its threads, and the free
-- space of its disk, are not modelled.
pub mod Reports
mod Examples
use mini_hadoop.Common.{List, [], ◌∷◌, ◌++◌, length}
use mini_hadoop.Common.Int.{ℤ, pos, wrap32}
use mini_hadoop.Common.Text.{Bytes}
use mini_hadoop.Io.Buffer.Fields.{Field, int, long, string}
use mini_hadoop.Ndfs.FsNamesystem.{Block}
use mini_hadoop.Ndfs.BlockStorage.{BlockStorage, get_block_report}

-- `SendHeartbeat`
abbrev pub heartbeat_request : Bytes → Bytes → ℤ → ℤ → ℤ → List Field
heartbeat_request name host port capacity remaining =
    string name ∷ string host ∷ int port ∷ long capacity ∷ long remaining ∷ []

-- The loop of `SendBlockReport`.
abbrev pub reported_fields : List Block → List Field
reported_fields [] = []
reported_fields (b ∷ bs) =
    long b.block_id ∷ long b.num_bytes ∷ long b.generation_stamp ∷ reported_fields bs

-- `SendBlockReport`
abbrev pub block_report_request : Bytes → BlockStorage → List Field
block_report_request name storage =
    let reported = get_block_report storage in
    string name ∷ int (wrap32 (pos (length reported))) ∷ reported_fields reported
