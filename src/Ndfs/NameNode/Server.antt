-- ===== src/Ndfs/NameNode/Server.antt =====
-- src/ndfs/name_node.h: the methods that the NameNode registers with its server, by their ids.
use mini_hadoop.Common.{ℕ, suc, [], ◌∷◌}
use mini_hadoop.Common.Int.{ℤ, pos}
use mini_hadoop.Io.Buffer.{◌>>=◌, return}
use mini_hadoop.Ipc.Rpc.{Handler, Handlers}
use mini_hadoop.Ndfs.FsNamesystem.{FsNamesystem}
use mini_hadoop.Ndfs.NameNode
use mini_hadoop.Ndfs.NameNode.{
  handle_start_file, handle_add_block, handle_get_blocks, handle_delete, handle_mkdirs,
  handle_get_listing, handle_heartbeat, handle_block_report, handle_block_received,
  handle_get_stats, handle_get_datanode_report,
}

pub data NdfsOp : Type 0 where
  start_file add_block get_blocks delete mkdirs get_listing heartbeat block_report block_received
        get_stats get_datanode_report :
      NdfsOp

abbrev pub method_id : NdfsOp → ℤ
method_id NdfsOp.start_file = pos 0
method_id NdfsOp.add_block = pos 1
method_id NdfsOp.get_blocks = pos 2
method_id NdfsOp.delete = pos 3
method_id NdfsOp.mkdirs = pos 4
method_id NdfsOp.get_listing = pos 5
method_id NdfsOp.heartbeat = pos 6
method_id NdfsOp.block_report = pos 7
method_id NdfsOp.block_received = pos 8
method_id NdfsOp.get_stats = pos 9
method_id NdfsOp.get_datanode_report = pos 10

-- `namesystem_`, and how many requests were handled.
pub record Served : Type 0 where
  pub namesystem : FsNamesystem
  pub requests : ℕ

-- The block id that is drawn, and the time, for each request.
abbrev pub Draws : Type 0
Draws = ℕ → ℤ × ℤ

abbrev pub counted : Draws → (ℤ → ℤ → NameNode.Handler) → Handler Served
counted draws handle st = do
  (s, resp) ← handle (draws st.requests).0 (draws st.requests).1 st.namesystem
  return (record { namesystem = s; requests = suc st.requests }, resp)

-- `SetupHandlers`
unfoldable pub handlers : Draws → Handlers Served
handlers draws =
    (method_id NdfsOp.start_file, counted draws (λ id now. handle_start_file id))
    ∷ (method_id NdfsOp.add_block, counted draws (λ id now. handle_add_block id))
    ∷ (method_id NdfsOp.get_blocks, counted draws (λ id now. handle_get_blocks))
    ∷ (method_id NdfsOp.delete, counted draws (λ id now. handle_delete))
    ∷ (method_id NdfsOp.mkdirs, counted draws (λ id now. handle_mkdirs))
    ∷ (method_id NdfsOp.get_listing, counted draws (λ id now. handle_get_listing))
    ∷ (method_id NdfsOp.heartbeat, counted draws (λ id now. handle_heartbeat now))
    ∷ (method_id NdfsOp.block_report, counted draws (λ id now. handle_block_report))
    ∷ (method_id NdfsOp.block_received, counted draws (λ id now. handle_block_received))
    ∷ (method_id NdfsOp.get_stats, counted draws (λ id now. handle_get_stats))
    ∷ (method_id NdfsOp.get_datanode_report, counted draws (λ id now. handle_get_datanode_report))
    ∷ []
