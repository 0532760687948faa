-- ===== src/Ndfs/FsNamesystem/Examples.antt =====
-- Concrete runs of src/ndfs/fs_namesystem.h: one DataNode and a file of one block.
use mini_hadoop.Common.{◌≡◌, refl, true, false, List, [], ◌∷◌, ◌++◌, some}
use mini_hadoop.Common.Int.{pos, eqb_ℤ}
use mini_hadoop.Common.Text.{Bytes, codes, str_eq}
use mini_hadoop.Common.Assoc.{DistinctKeys, lookup, insert}
use mini_hadoop.Ndfs.InodeTree.{
  INode, inode, nil, cons, directory, file, split_path, split_loop, get_node_at, get_node,
  find_child, push_child, set_child, mkdirs, mkdirs_at, create_file, create_file_at, delete,
  delete_at, remove_child,
}
use mini_hadoop.Ndfs.InodeTree.View.{view}
use mini_hadoop.Ndfs.FsNamesystem.{
  FsNamesystem, DataNodeInfo, generate, initial, choose_targets, default_replication, in_safe_mode,
}
use mini_hadoop.Ndfs.FsNamesystem.Client.{
  get_parent_dir, start_file, add_block, delete_path, get_blocks,
}
use mini_hadoop.Ndfs.FsNamesystem.Files.{
  HasBlocks, get_blocks-start_file, get_blocks-add_block, get_blocks-add_block_elsewhere,
}
use mini_hadoop.Ndfs.FsNamesystem.Deletion.{Forgotten, delete_path_of_file_lem}
use mini_hadoop.Ndfs.FsNamesystem.Invariant.{IsTree, IsConsistent}
use mini_hadoop.Ndfs.FsNamesystem.Invariant.Operations.{
  Operation, op_start_file, op_add_block, op_register_datanode, op_block_received, op_delete, run,
  run-IsConsistent,
}

abbrev node : DataNodeInfo
node = record {
  dn_name = codes "dn1";
  host = codes "localhost";
  port = pos 9001;
  capacity = pos 1000;
  remaining = pos 900;
  last_update = pos 5;
}

abbrev path : Bytes
path = codes "/docs/a"

abbrev other : Bytes
other = codes "/b"

-- A NameNode with the DataNode and without files.
abbrev cluster : FsNamesystem
cluster = record initial { datanodes = (codes "dn1", node) ∷ [] }

abbrev filled_tree : INode
filled_tree = inode directory [] [] (
    cons (inode directory (codes "docs") [] (cons (inode file (codes "a") (pos 7 ∷ []) nil) nil))
      (cons (inode file (codes "b") (pos 8 ∷ []) nil) nil))

-- The same with two files of one block each.
abbrev filled : FsNamesystem
filled = record cluster {
  tree = filled_tree;
  block_to_datanodes = (pos 7, node ∷ []) ∷ (pos 8, node ∷ []) ∷ [];
}

path_leads : HasBlocks filled path (pos 7 ∷ [])
unfolding view split_path split_loop get_node_at find_child str_eq
path_leads = refl

other_leads : HasBlocks filled other (pos 8 ∷ [])
unfolding view split_path split_loop get_node_at find_child str_eq
other_leads = refl

filled-IsTree : IsTree filled.tree
unfolding find_child str_eq
filled-IsTree = (refl, (tt, ((tt, ((tt, tt), refl, tt)), refl, ((tt, tt), refl, tt))))

filled-DistinctKeys : DistinctKeys eqb_ℤ filled.block_to_datanodes
unfolding lookup
filled-DistinctKeys = (refl, (refl, tt))

get_blocks-start_file_example :
    ((start_file (pos 9) path false cluster).1
      ≡ (generate (pos 9) (pos 0), choose_targets default_replication cluster))
    × (get_blocks path (start_file (pos 9) path false cluster).0
        ≡ (generate (pos 9) (pos 0) ∷ [], choose_targets default_replication cluster ∷ []))
unfolding in_safe_mode get_node mkdirs create_file mkdirs_at create_file_at split_path split_loop
    get_node_at find_child push_child set_child str_eq get_parent_dir
get_blocks-start_file_example = get_blocks-start_file cluster (pos 9) path false refl refl refl

get_blocks-add_block_example :
    ((add_block (pos 9) path filled).1
      ≡ (generate (pos 9) (pos 0), choose_targets default_replication filled))
    × (get_blocks path (add_block (pos 9) path filled).0 ≡ (
      (get_blocks path filled).0 ++ (generate (pos 9) (pos 0) ∷ []),
      (get_blocks path filled).1 ++ (choose_targets default_replication filled ∷ []),
    ))
get_blocks-add_block_example =
    get_blocks-add_block filled (pos 9) path (pos 7 ∷ []) path_leads (refl, tt)

get_blocks-add_block_elsewhere_example :
    get_blocks other (add_block (pos 9) path filled).0 ≡ get_blocks other filled
unfolding split_path split_loop str_eq
get_blocks-add_block_elsewhere_example =
    get_blocks-add_block_elsewhere filled (pos 9) path other (pos 7 ∷ []) (pos 8 ∷ []) path_leads
      other_leads refl (refl, tt)

delete_path_of_file_lem_example :
    ((delete_path path filled).1 ≡ true)
    × (get_blocks path (delete_path path filled).0 ≡ ([], []))
    × Forgotten (delete_path path filled).0.block_to_datanodes (pos 7 ∷ [])
delete_path_of_file_lem_example =
    delete_path_of_file_lem filled path (pos 7 ∷ []) filled-IsTree filled-DistinctKeys path_leads

abbrev session : List Operation
session =
    op_register_datanode (pos 5) node
    ∷ op_start_file (pos 7) path false
    ∷ op_block_received (codes "dn1") (generate (pos 7) (pos 64))
    ∷ op_add_block (pos 8) path
    ∷ op_delete path
    ∷ []

run-IsConsistent_example : IsConsistent (run session initial)
run-IsConsistent_example = run-IsConsistent session

-- `StartFile` with `overwrite` keeps the entry of the block that the old file had.
old_block_kept :
    lookup eqb_ℤ (pos 7) (start_file (pos 9) path true filled).0.block_to_datanodes
    ≡ some (node ∷ [])
unfolding start_file in_safe_mode get_node mkdirs create_file delete mkdirs_at create_file_at
    delete_at split_path split_loop get_node_at find_child push_child set_child remove_child str_eq
    get_parent_dir lookup insert choose_targets
old_block_kept = refl
