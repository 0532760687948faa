-- ===== src/Ndfs/DfsClient/Examples.antt =====
-- A concrete request of src/ndfs/dfs_client.h to a NameNode with one DataNode.
use mini_hadoop.Common.{◌≡◌, ◌<◌, ◌^◌, false, [], ◌∷◌, length, ok, arith, refl}
use mini_hadoop.Common.Int.{pos, to_u32, of_u32}
use mini_hadoop.Common.Text.{Bytes, codes, str_eq}
use mini_hadoop.Io.Buffer.{
  reset, write_int, write_string, write_bool, write_byte, write_raw, write_long,
}
use mini_hadoop.Io.Buffer.Fields.{write_fields}
use mini_hadoop.Ndfs.InodeTree.{
  mkdirs, mkdirs_at, create_file, create_file_at, get_node, get_node_at, split_path, split_loop,
  find_child, push_child, set_child,
}
use mini_hadoop.Ndfs.FsNamesystem.{
  FsNamesystem, DataNodeInfo, initial, in_safe_mode, choose_targets, generate,
}
use mini_hadoop.Ndfs.FsNamesystem.Client.{Allocation, start_file, get_parent_dir}
use mini_hadoop.Ndfs.NameNode.{allocation_fields, handle_start_file}
use mini_hadoop.Ndfs.DfsClient.{read_allocation, start_file_request}
use mini_hadoop.Ndfs.DfsClient.Protocol.{IsFitAllocation, handle_start_file_lem}

abbrev node : DataNodeInfo
node = record {
  dn_name = codes "dn1";
  host = codes "h";
  port = pos 9001;
  capacity = pos 1000;
  remaining = pos 900;
  last_update = pos 5;
}

abbrev path : Bytes
path = codes "/a"

abbrev cluster : FsNamesystem
cluster = record initial { datanodes = (codes "dn1", node) ∷ [] }

abbrev answer : Allocation
answer = (generate (pos 7) (pos 0), node ∷ [])

started : (start_file (pos 7) path false cluster).1 ≡ answer
unfolding start_file in_safe_mode get_node mkdirs create_file mkdirs_at create_file_at split_path
    split_loop get_node_at find_child push_child set_child str_eq get_parent_dir choose_targets
started = refl

answer-IsFit : IsFitAllocation answer
answer-IsFit = (
  (omega arith, omega arith, omega arith),
  ((omega arith, omega arith, omega arith, omega arith, omega arith, omega arith), tt),
  omega arith,
)

answer_small : length (write_fields [] (allocation_fields answer)) < 2 ^ 63
unfolding write_int write_string write_long write_raw to_u32 of_u32
answer_small = omega arith

request_small : length (write_fields [] (start_file_request path false)) < 2 ^ 63
unfolding write_int write_string write_bool write_byte write_raw to_u32 of_u32
request_small = omega arith

handle_start_file_lem_example :
    let request = write_fields [] (start_file_request path false) in
    let (s', result) = start_file (pos 7) path false cluster in
    let resp = write_fields [] (allocation_fields result) in
    (handle_start_file (pos 7) cluster (reset request)
      ≡ ok ((s', resp), record { contents = request; position = length request }))
    × (read_allocation (reset resp)
        ≡ ok (result, record { contents = resp; position = length resp }))
handle_start_file_lem_example =
    handle_start_file_lem (pos 7) path false cluster (omega arith) request_small
      (rw started answer-IsFit) (rw started answer_small)
