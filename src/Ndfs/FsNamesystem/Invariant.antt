-- ===== src/Ndfs/FsNamesystem/Invariant.antt =====
-- The invariant of the state of src/ndfs/fs_namesystem.h, and the client operations.
pub mod DataNodes
pub mod Operations
use mini_hadoop.Common.{
  ℕ, ◌<◌, ◌≡◌, ◌↔◌, refl, sym, subst, ap, ◌∙◌, Bool, true, false, not, ◌&&◌, ◌||◌, List, [], ◌∷◌,
  ◌++◌, Option, none, some, if◌then◌else◌, length, arith, All, Bool-cases, Option-cases, inl, inr,
  ltb,
}
use mini_hadoop.Common.Int.{ℤ, pos, eqb_ℤ, eqb_ℤ_iff, ltb_ℤ}
use mini_hadoop.Common.Text.{Bytes, str_eq, str_eq_iff}
use mini_hadoop.Common.Assoc.{
  Map, lookup, insert, erase, DistinctKeys, insert-DistinctKeys, erase-DistinctKeys, All-insert,
  All-erase, All-lookup,
}
use mini_hadoop.Ndfs.InodeTree.{
  get_node, blocks, is_directory, split_path, INode, directory, node_type, mkdirs, create_file,
  delete, push_block,
}
use mini_hadoop.Ndfs.InodeTree.WellFormed.{IsWellFormed}
use mini_hadoop.Ndfs.InodeTree.WellFormed.Operations.{
  mkdirs_at-IsWellFormed, create_file_at-IsWellFormed, delete_at-IsWellFormed,
  push_block_at-IsWellFormed,
}
use mini_hadoop.Ndfs.InodeTree.View.{
  node_type-mkdirs_at, node_type-create_file_at, node_type-delete_at, node_type-push_block_at,
}
use mini_hadoop.Ndfs.FsNamesystem.{
  FsNamesystem, Block, generate, DataNodeInfo, Lease, initial, choose_targets, default_replication,
  datanodes_of, set_datanodes, or_empty,
}
use mini_hadoop.Ndfs.FsNamesystem.Client.{
  get_parent_dir, allocate, started_tree, start_file_cases, start_file, add_block, delete_path,
  make_dirs, erase_blocks, is_file, exists,
}
use mini_hadoop.Ndfs.FsNamesystem.DataNodes.{
  register_datanode, heartbeat, block_report, block_received, report_block, report_blocks,
  has_datanode,
}
use mini_hadoop.Ndfs.FsNamesystem.SafeMode.{enter_safe_mode, update_safe_mode}
use mini_hadoop.Ndfs.FsNamesystem.Leases.{add_lease, remove_lease, check_loop, check_leases}
use mini_hadoop.Ndfs.FsNamesystem.Targets.{
  KeysAreNames, DistinctNames, choose_targets-DistinctNames, snoc-DistinctNames,
}

abbrev pub DistinctReplicas : Map ℤ (List DataNodeInfo) → Type 0
DistinctReplicas = All (λ (_, dns). DistinctNames dns)

abbrev pub IsTree : INode → Type 0
IsTree t = (node_type t ≡ directory) × IsWellFormed t

-- The tree is a well-formed directory, the four maps have distinct keys, a DataNode is filed under
-- its name, and no block lists a DataNode twice.
pub record IsConsistent (s : FsNamesystem) : Type 0 where
  pub tree_formed : IsTree s.tree
  pub nodes_distinct : DistinctKeys str_eq s.datanodes
  pub nodes_named : KeysAreNames s.datanodes
  pub blocks_distinct : DistinctKeys eqb_ℤ s.block_to_datanodes
  pub replicas_distinct : DistinctReplicas s.block_to_datanodes
  pub reports_distinct : DistinctKeys str_eq s.dn_to_blocks
  pub leases_distinct : DistinctKeys str_eq s.leases

pub mkdirs-IsTree : (t : INode) (path : Bytes) → IsTree t → IsTree (mkdirs t path).0
unfolding mkdirs
mkdirs-IsTree t path (d, h) =
    (node_type-mkdirs_at (split_path path) t ∙ d, mkdirs_at-IsWellFormed (split_path path) t d h)

pub create_file-IsTree : (t : INode) (path : Bytes) → IsTree t → IsTree (create_file t path).0
unfolding create_file
create_file-IsTree t path (d, h) = (
  node_type-create_file_at (split_path path) t ∙ d,
  create_file_at-IsWellFormed (split_path path) t d h,
)

pub delete-IsTree : (t : INode) (path : Bytes) → IsTree t → IsTree (delete t path).0
unfolding delete
delete-IsTree t path (d, h) =
    (node_type-delete_at (split_path path) t ∙ d, delete_at-IsWellFormed (split_path path) t h)

pub push_block-IsTree :
    (t : INode) (path : Bytes) (id : ℤ) → IsTree t → IsTree (push_block t path id)
unfolding push_block
push_block-IsTree t path id (d, h) = (
  node_type-push_block_at (split_path path) id t ∙ d,
  push_block_at-IsWellFormed (split_path path) id t h,
)

with_tree :
    (s : FsNamesystem) (t : INode)
    → IsConsistent s
    → IsTree t
    → IsConsistent (record s { tree = t })
with_tree s t c h = record {
  tree_formed = h;
  nodes_distinct = c.nodes_distinct;
  nodes_named = c.nodes_named;
  blocks_distinct = c.blocks_distinct;
  replicas_distinct = c.replicas_distinct;
  reports_distinct = c.reports_distinct;
  leases_distinct = c.leases_distinct;
}

set_datanodes-IsConsistent :
    (s : FsNamesystem) (id : ℤ) (dns : List DataNodeInfo)
    → IsConsistent s
    → DistinctNames dns
    → IsConsistent (set_datanodes id dns s)
set_datanodes-IsConsistent s id dns c h = record {
  tree_formed = c.tree_formed;
  nodes_distinct = c.nodes_distinct;
  nodes_named = c.nodes_named;
  blocks_distinct =
      insert-DistinctKeys eqb_ℤ eqb_ℤ_iff id dns s.block_to_datanodes c.blocks_distinct;
  replicas_distinct =
      All-insert eqb_ℤ eqb_ℤ_iff (λ (_, ds). DistinctNames ds) id dns s.block_to_datanodes
        c.replicas_distinct h;
  reports_distinct = c.reports_distinct;
  leases_distinct = c.leases_distinct;
}

datanodes_of-DistinctNames :
    (s : FsNamesystem) (id : ℤ) → IsConsistent s → DistinctNames (datanodes_of id s)
datanodes_of-DistinctNames s id c = elim (Option-cases (lookup eqb_ℤ id s.block_to_datanodes)) [
  | inl e ↦ subst (λ (o : Option (List DataNodeInfo)). DistinctNames (or_empty o)) (sym e) tt
  | inr (dns, e) ↦
      subst (λ (o : Option (List DataNodeInfo)). DistinctNames (or_empty o)) (sym e)
        (All-lookup eqb_ℤ eqb_ℤ_iff (λ (_, ds). DistinctNames ds) id s.block_to_datanodes dns
          c.replicas_distinct e)
]

allocate-IsConsistent :
    (s : FsNamesystem) (id : ℤ) (path : Bytes)
    → IsConsistent s
    → IsConsistent (allocate id path s).0
allocate-IsConsistent s id path c =
    with_tree (set_datanodes id (choose_targets default_replication s) s)
      (push_block s.tree path id)
      (set_datanodes-IsConsistent s id (choose_targets default_replication s) c (
        choose_targets-DistinctNames default_replication s (omega arith) c.nodes_distinct
          c.nodes_named))
      (push_block-IsTree s.tree path id c.tree_formed)

started_tree-IsTree :
    (t : INode) (path : Bytes) (overwrite : Bool)
    → IsTree t
    → IsTree (started_tree path overwrite t).0
started_tree-IsTree t path overwrite h =
    create_file-IsTree _ path
      (mkdirs-IsTree _ (get_parent_dir path) (cleared (exists t path && overwrite)))
  where
    cleared : (b : Bool) → IsTree (if b then (delete t path).0 else t)
    cleared true = delete-IsTree t path h
    cleared false = h

start_file-IsConsistent :
    (s : FsNamesystem) (id : ℤ) (path : Bytes) (overwrite : Bool)
    → IsConsistent s
    → IsConsistent (start_file id path overwrite s).0
start_file-IsConsistent s id path overwrite c =
    let h = started_tree-IsTree s.tree path overwrite c.tree_formed in
    let s' = with_tree s (started_tree path overwrite s.tree).0 c h in
    start_file_cases (λ r. IsConsistent r.0) id path overwrite s c (λ _. s')
      (λ _ _ _.
        allocate-IsConsistent (record s { tree = (started_tree path overwrite s.tree).0 }) id path
          s')

add_block-IsConsistent :
    (s : FsNamesystem) (id : ℤ) (path : Bytes)
    → IsConsistent s
    → IsConsistent (add_block id path s).0
unfolding add_block
add_block-IsConsistent s id path c = elim (Bool-cases (is_file s.tree path)) [
  | inl e ↦ rw e (allocate-IsConsistent s id path c)
  | inr e ↦ rw e c
]

erase_blocks-DistinctKeys :
    (ids : List ℤ) (m : Map ℤ (List DataNodeInfo))
    → DistinctKeys eqb_ℤ m
    → DistinctKeys eqb_ℤ (erase_blocks ids m)
erase_blocks-DistinctKeys [] m h = h
erase_blocks-DistinctKeys (id ∷ ids) m h =
    erase_blocks-DistinctKeys ids _ (erase-DistinctKeys eqb_ℤ eqb_ℤ_iff id m h)

erase_blocks-DistinctReplicas :
    (ids : List ℤ) (m : Map ℤ (List DataNodeInfo))
    → DistinctReplicas m
    → DistinctReplicas (erase_blocks ids m)
erase_blocks-DistinctReplicas [] m h = h
erase_blocks-DistinctReplicas (id ∷ ids) m h =
    erase_blocks-DistinctReplicas ids (erase eqb_ℤ id m)
      (All-erase eqb_ℤ (λ (_, ds). DistinctNames ds) id m h)

delete_path-IsConsistent :
    (s : FsNamesystem) (path : Bytes) → IsConsistent s → IsConsistent (delete_path path s).0
unfolding delete_path
delete_path-IsConsistent s path c = elim (Option-cases (get_node s.tree path)) [
  | inl e ↦ rw (e, delete_path) c
  | inr (node, e) ↦
      let t = delete-IsTree s.tree path c.tree_formed in
      elim (Bool-cases (is_directory (node_type node))) [
        | inl d ↦ rw (e, delete_path, d) (with_tree s _ c t)
        | inr d ↦
            rw (e, delete_path, d)
              (record {
                tree_formed = t;
                nodes_distinct = c.nodes_distinct;
                nodes_named = c.nodes_named;
                blocks_distinct = erase_blocks-DistinctKeys (blocks node) _ c.blocks_distinct;
                replicas_distinct =
                    erase_blocks-DistinctReplicas (blocks node) _ c.replicas_distinct;
                reports_distinct = c.reports_distinct;
                leases_distinct = c.leases_distinct;
              })
      ]
]
