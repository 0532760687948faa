-- ===== src/Ndfs/FsNamesystem.antt =====
-- src/ndfs/fs_namesystem.h, src/ndfs/block.h and src/ndfs/datanode_info.h: the state of the
-- NameNode. Each method is one function from the state to the new state and the result; all that change
-- the state hold the mutex but `EnterSafeMode` and `UpdateSafeMode`. The unordered maps are association lists, in the order in which the map iterates;
-- the random block id and the clock are arguments.
pub mod Client
pub mod DataNodes
pub mod SafeMode
pub mod Leases
pub mod Targets
pub mod Invariant
pub mod Files
pub mod Deletion
mod Examples
use mini_hadoop.Common.{
  Option, none, some, ℕ, zero, suc, ◌+◌, ◌-◌, ◌*◌, Bool, true, false, not, ◌&&◌, ◌||◌, List, [],
  ◌∷◌, ◌++◌, map, Option, none, some, ltb, leb, ◌==◌, if◌then◌else◌, length, take,
}
use mini_hadoop.Common.Int.{ℤ, pos, ltb_ℤ, eqb_ℤ, ◌+ℤ◌}
use mini_hadoop.Common.Text.{Bytes, str_eq}
use mini_hadoop.Common.Assoc.{Map, lookup, insert}
use mini_hadoop.Ndfs.InodeTree.{
  INode, NodeType, is_directory, node_type, name, blocks, empty_tree, get_node, mkdirs, create_file,
  delete, push_block, list_dir,
}

pub record Block : Type 0 where
  pub block_id : ℤ
  pub num_bytes : ℤ
  pub generation_stamp : ℤ

-- `Block{}`, and `Block::Generate` for a drawn id.
abbrev pub generate : ℤ → ℤ → Block
generate id n = record { block_id = id; num_bytes = n; generation_stamp = pos 0 }

pub record DataNodeInfo : Type 0 where
  pub dn_name : Bytes
  pub host : Bytes
  pub port : ℤ
  pub capacity : ℤ
  pub remaining : ℤ
  pub last_update : ℤ

pub record Lease : Type 0 where
  pub holder : Bytes
  pub lease_path : Bytes
  pub expiry : ℤ

pub record FsNamesystem : Type 0 where
  pub tree : INode
  pub datanodes : Map Bytes DataNodeInfo
  pub block_to_datanodes : Map ℤ (List DataNodeInfo)
  pub dn_to_blocks : Map Bytes (List Block)
  pub total_blocks : ℕ
  pub safe_blocks : ℕ
  pub safe_mode_countdown : ℕ
  pub leases : Map Bytes Lease

-- `FsNamesystem()`
abbrev pub initial : FsNamesystem
initial = record {
  tree = empty_tree;
  datanodes = [];
  block_to_datanodes = [];
  dn_to_blocks = [];
  total_blocks = 0;
  safe_blocks = 0;
  safe_mode_countdown = 30;
  leases = [];
}

-- `kDefaultReplication`
abbrev pub default_replication : ℕ
default_replication = 3

-- The loop of `ChooseTargets` over the registered DataNodes.
unfoldable pub choose_loop : ℕ → Map Bytes DataNodeInfo → List DataNodeInfo → List DataNodeInfo
choose_loop replication [] targets = targets
choose_loop replication ((_, info) ∷ rest) targets =
    let targets' = targets ++ (info ∷ []) in
    let more = choose_loop replication rest targets' in
    if leb replication (length targets') then targets' else more

unfoldable pub choose_targets : ℕ → FsNamesystem → List DataNodeInfo
unfolding choose_loop
choose_targets replication s = choose_loop replication s.datanodes []

-- The `ratio` test in exact arithmetic. The quotient of two counts and the constant 0.999 are
-- rounded to `double` in the code; for fewer than 2 ^ 40 blocks that does not change the comparison.
unfoldable pub in_safe_mode : FsNamesystem → Bool
in_safe_mode s = elim s.datanodes [
  | [] ↦ true
  | _ ∷ _ ↦ if s.total_blocks == 0 then false else ltb (1000 * s.safe_blocks) (999 * s.total_blocks)
]

abbrev pub or_empty : Option (List DataNodeInfo) → List DataNodeInfo
or_empty none = []
or_empty (some dns) = dns

-- `block_to_datanodes_[id]` where it is read.
abbrev pub datanodes_of : ℤ → FsNamesystem → List DataNodeInfo
datanodes_of id s = or_empty (lookup eqb_ℤ id s.block_to_datanodes)

abbrev pub set_datanodes : ℤ → List DataNodeInfo → FsNamesystem → FsNamesystem
set_datanodes id dns s = record s { block_to_datanodes = insert eqb_ℤ id dns s.block_to_datanodes }
