-- ===== src/Ndfs/NameNode.antt =====
-- src/ndfs/name_node.h: the handlers of the NameNode. A handler reads its request, calls one method
-- of `FsNamesystem` and writes the reply. The image on disk is in the child Image; the block id and
-- the clock are arguments.
pub mod Server
pub mod Image
pub mod SavableTrees
pub mod Restart
mod RestartExamples
use mini_hadoop.Common.{ℕ, zero, suc, List, [], ◌∷◌, ◌++◌, length}
use mini_hadoop.Common.Int.{ℤ, pos, wrap32}
use mini_hadoop.Common.Text.{Bytes}
use mini_hadoop.Io.Buffer.{
  OutputBuffer, Reader, ◌>>=◌, return, read_int, read_long, read_bool, read_string, container_size,
}
use mini_hadoop.Io.Buffer.Fields.{Field, bool, int, long, string, write_fields}
use mini_hadoop.Ndfs.FsNamesystem.{FsNamesystem, Block, DataNodeInfo}
use mini_hadoop.Ndfs.FsNamesystem.Client.{
  Allocation, start_file, add_block, get_blocks, delete_path, make_dirs, get_listing,
}
use mini_hadoop.Ndfs.FsNamesystem.DataNodes.{
  heartbeat, block_report, block_received, total_capacity, total_remaining, alive_datanodes,
  get_datanode_report,
}

-- `WriteBlock`
abbrev pub block_fields : Block → List Field
block_fields b = long b.block_id ∷ long b.num_bytes ∷ long b.generation_stamp ∷ []

-- `WriteDataNodeInfo`
abbrev pub datanode_fields : DataNodeInfo → List Field
datanode_fields dn =
    string dn.dn_name
    ∷ string dn.host
    ∷ int dn.port
    ∷ long dn.capacity
    ∷ long dn.remaining
    ∷ long dn.last_update
    ∷ []

-- The loop of `WriteDataNodeInfoList`, and of the report of the DataNodes.
abbrev pub datanodes_fields : List DataNodeInfo → List Field
datanodes_fields [] = []
datanodes_fields (dn ∷ dns) = datanode_fields dn ++ datanodes_fields dns

-- `WriteDataNodeInfoList`
abbrev pub datanode_list_fields : List DataNodeInfo → List Field
datanode_list_fields dns = int (wrap32 (pos (length dns))) ∷ datanodes_fields dns

-- The reply to `StartFile` and `AddBlock`.
abbrev pub allocation_fields : Allocation → List Field
allocation_fields (block, targets) = block_fields block ++ datanode_list_fields targets

-- The loop of the reply to `GetBlocks`: the vectors have one length.
abbrev pub located_fields : List Block → List (List DataNodeInfo) → List Field
located_fields [] _ = []
located_fields (b ∷ bs) [] = []
located_fields (b ∷ bs) (dns ∷ rest) =
    block_fields b ++ (datanode_list_fields dns ++ located_fields bs rest)

abbrev pub listing_fields : List Bytes → List Field
listing_fields [] = []
listing_fields (item ∷ items) = string item ∷ listing_fields items

abbrev pub Handler : Type 0
Handler = FsNamesystem → Reader (FsNamesystem × OutputBuffer)

abbrev pub reply : FsNamesystem → List Field → Reader (FsNamesystem × OutputBuffer)
reply s fields = return (s, write_fields [] fields)

unfoldable pub handle_start_file : ℤ → Handler
handle_start_file id s = do
  path ← read_string
  overwrite ← read_bool
  reply (start_file id path overwrite s).0 (allocation_fields (start_file id path overwrite s).1)

unfoldable pub handle_add_block : ℤ → Handler
handle_add_block id s = do
  path ← read_string
  reply (add_block id path s).0 (allocation_fields (add_block id path s).1)

unfoldable pub handle_get_blocks : Handler
handle_get_blocks s = do
  path ← read_string
  reply s (
      int (wrap32 (pos (length (get_blocks path s).0)))
      ∷ located_fields (get_blocks path s).0 (get_blocks path s).1)

unfoldable pub handle_delete : Handler
handle_delete s = do
  path ← read_string
  reply (delete_path path s).0 (bool (delete_path path s).1 ∷ [])

unfoldable pub handle_mkdirs : Handler
handle_mkdirs s = do path ← read_string; reply (make_dirs path s).0 (bool (make_dirs path s).1 ∷ [])

unfoldable pub handle_get_listing : Handler
handle_get_listing s = do
  path ← read_string
  reply s (int (wrap32 (pos (length (get_listing path s)))) ∷ listing_fields (get_listing path s))

unfoldable pub handle_heartbeat : ℤ → Handler
handle_heartbeat now s = do
  name ← read_string
  host ← read_string
  port ← read_int
  capacity ← read_long
  remaining ← read_long
  reply (heartbeat now name host port capacity remaining s) []

-- The three reads of a block, in `BlockReport` and `BlockReceived`.
abbrev pub read_reported : Reader Block
read_reported = do
  id ← read_long
  bytes ← read_long
  stamp ← read_long
  return (record { block_id = id; num_bytes = bytes; generation_stamp = stamp })

abbrev pub read_reports : ℕ → Reader (List Block)
read_reports zero = return []
read_reports (suc n) = do b ← read_reported; bs ← read_reports n; return (b ∷ bs)

unfoldable pub handle_block_report : Handler
handle_block_report s = do
  name ← read_string
  count ← read_int
  n ← container_size count
  blocks ← read_reports n
  reply (block_report name blocks s) (int (pos 1) ∷ [])

unfoldable pub handle_block_received : Handler
handle_block_received s = do
  name ← read_string
  b ← read_reported
  _ ← read_string
  reply (block_received name b s) (int (pos 1) ∷ [])

unfoldable pub handle_get_stats : Handler
handle_get_stats s = reply s (
    long (total_capacity s)
    ∷ long (total_remaining s)
    ∷ int (wrap32 (pos (alive_datanodes s)))
    ∷ [])

unfoldable pub handle_get_datanode_report : Handler
handle_get_datanode_report s = reply s (datanode_list_fields (get_datanode_report s))
