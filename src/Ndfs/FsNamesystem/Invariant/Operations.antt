-- ===== src/Ndfs/FsNamesystem/Invariant/Operations.antt =====
-- Runs of the operations of src/ndfs/fs_namesystem.h from the state that the constructor makes.
use mini_hadoop.Common.{none, arith, ◌≡◌, refl, Bool, List, [], ◌∷◌, Bool-cases, inl, inr}
use mini_hadoop.Common.Int.{ℤ, ltb_ℤ}
use mini_hadoop.Common.Text.{Bytes, str_eq, str_eq_iff}
use mini_hadoop.Common.Assoc.{Map, lookup, DistinctKeys, insert-DistinctKeys, erase-DistinctKeys}
use mini_hadoop.Ndfs.InodeTree.{INode, delete}
use mini_hadoop.Ndfs.FsNamesystem.{FsNamesystem, Block, DataNodeInfo, Lease, initial}
use mini_hadoop.Ndfs.FsNamesystem.Client.{start_file, add_block, delete_path, make_dirs}
use mini_hadoop.Ndfs.FsNamesystem.DataNodes.{
  register_datanode, heartbeat, block_report, block_received,
}
use mini_hadoop.Ndfs.FsNamesystem.SafeMode.{enter_safe_mode, update_safe_mode}
use mini_hadoop.Ndfs.FsNamesystem.Leases.{add_lease, remove_lease, check_loop, check_leases}
use mini_hadoop.Ndfs.FsNamesystem.Invariant.{
  IsTree, IsConsistent, mkdirs-IsTree, delete-IsTree, with_tree, start_file-IsConsistent,
  add_block-IsConsistent, delete_path-IsConsistent,
}
use mini_hadoop.Ndfs.FsNamesystem.Invariant.DataNodes.{
  register_datanode-IsConsistent, heartbeat-IsConsistent, block_report-IsConsistent,
  block_received-IsConsistent,
}

-- The public methods that change the state.
pub data Operation : Type 0 where
  op_start_file : ℤ → Bytes → Bool → Operation
  op_add_block : ℤ → Bytes → Operation
  op_delete : Bytes → Operation
  op_mkdirs : Bytes → Operation
  op_register_datanode : ℤ → DataNodeInfo → Operation
  op_heartbeat : ℤ → Bytes → Bytes → ℤ → ℤ → ℤ → Operation
  op_block_report : Bytes → List Block → Operation
  op_block_received : Bytes → Block → Operation
  op_enter_safe_mode : Operation
  op_update_safe_mode : Operation
  op_add_lease : ℤ → Bytes → Bytes → Operation
  op_remove_lease : Bytes → Operation
  op_check_leases : ℤ → Operation

abbrev pub apply : Operation → FsNamesystem → FsNamesystem
apply (op_start_file id path overwrite) s = (start_file id path overwrite s).0
apply (op_add_block id path) s = (add_block id path s).0
apply (op_delete path) s = (delete_path path s).0
apply (op_mkdirs path) s = (make_dirs path s).0
apply (op_register_datanode now info) s = register_datanode now info s
apply (op_heartbeat now n host port capacity remaining) s =
    heartbeat now n host port capacity remaining s
apply (op_block_report n bs) s = block_report n bs s
apply (op_block_received n b) s = block_received n b s
apply op_enter_safe_mode s = enter_safe_mode s
apply op_update_safe_mode s = update_safe_mode s
apply (op_add_lease now holder path) s = add_lease now holder path s
apply (op_remove_lease path) s = remove_lease path s
apply (op_check_leases now) s = check_leases now s

-- The methods that hold the mutex run one after the other. `EnterSafeMode` and `UpdateSafeMode` take
-- no lock; a run has them between the other methods and not within one.
abbrev pub run : List Operation → FsNamesystem → FsNamesystem
run [] s = s
run (op ∷ ops) s = run ops (apply op s)

make_dirs-IsConsistent :
    (s : FsNamesystem) (path : Bytes) → IsConsistent s → IsConsistent (make_dirs path s).0
unfolding make_dirs
make_dirs-IsConsistent s path c = with_tree s _ c (mkdirs-IsTree s.tree path c.tree_formed)

-- The invariant does not read the counters.
same_parts :
    (s t : FsNamesystem)
    → t.tree ≡ s.tree
    → t.datanodes ≡ s.datanodes
    → t.block_to_datanodes ≡ s.block_to_datanodes
    → t.dn_to_blocks ≡ s.dn_to_blocks
    → DistinctKeys str_eq t.leases
    → IsConsistent s
    → IsConsistent t
same_parts s t ht hd hb hr hl c = record {
  tree_formed = rw ht c.tree_formed;
  nodes_distinct = rw hd c.nodes_distinct;
  nodes_named = rw hd c.nodes_named;
  blocks_distinct = rw hb c.blocks_distinct;
  replicas_distinct = rw hb c.replicas_distinct;
  reports_distinct = rw hr c.reports_distinct;
  leases_distinct = hl;
}

check_loop-IsTree :
    (now : ℤ) (m : Map Bytes Lease) (t : INode) → IsTree t → IsTree (check_loop now m t).0
unfolding check_loop
check_loop-IsTree now [] t h = h
check_loop-IsTree now ((path, l) ∷ m) t h = elim (Bool-cases (ltb_ℤ l.expiry now)) [
  | inl e ↦
      rw e (check_loop-IsTree now m (delete t l.lease_path).0 (delete-IsTree t l.lease_path h))
  | inr e ↦ rw e (check_loop-IsTree now m t h)
]

check_loop-lookup :
    (k : Bytes) (now : ℤ) (m : Map Bytes Lease) (t : INode)
    → lookup str_eq k m ≡ none
    → lookup str_eq k (check_loop now m t).1 ≡ none
unfolding check_loop lookup
check_loop-lookup k now [] t h = refl
check_loop-lookup k now ((path, l) ∷ m) t h = elim (Bool-cases (str_eq path k)) [
  | inl same ↦ absurd (ground arith)
  | inr other ↦ elim (Bool-cases (ltb_ℤ l.expiry now)) [
    | inl e ↦ rw e (check_loop-lookup k now m (delete t l.lease_path).0 (ground arith))
    | inr e ↦ rw (e, other) (check_loop-lookup k now m t (ground arith))
  ]
]

check_loop-DistinctKeys :
    (now : ℤ) (m : Map Bytes Lease) (t : INode)
    → DistinctKeys str_eq m
    → DistinctKeys str_eq (check_loop now m t).1
unfolding check_loop
check_loop-DistinctKeys now [] t h = tt
check_loop-DistinctKeys now ((path, l) ∷ m) t (first, h) = elim (Bool-cases (ltb_ℤ l.expiry now)) [
  | inl e ↦ rw e (check_loop-DistinctKeys now m (delete t l.lease_path).0 h)
  | inr e ↦ rw e (check_loop-lookup path now m t first, check_loop-DistinctKeys now m t h)
]

check_leases-IsConsistent :
    (s : FsNamesystem) (now : ℤ) → IsConsistent s → IsConsistent (check_leases now s)
unfolding check_leases
check_leases-IsConsistent s now c =
    same_parts (record s { tree = (check_loop now s.leases s.tree).0 }) _ refl refl refl refl
      (check_loop-DistinctKeys now s.leases s.tree c.leases_distinct)
      (with_tree s _ c (check_loop-IsTree now s.leases s.tree c.tree_formed))

-- Every operation keeps the invariant.
pub apply-IsConsistent :
    (op : Operation) (s : FsNamesystem) → IsConsistent s → IsConsistent (apply op s)
apply-IsConsistent (op_start_file id path overwrite) s c =
    start_file-IsConsistent s id path overwrite c
apply-IsConsistent (op_add_block id path) s c = add_block-IsConsistent s id path c
apply-IsConsistent (op_delete path) s c = delete_path-IsConsistent s path c
apply-IsConsistent (op_mkdirs path) s c = make_dirs-IsConsistent s path c
apply-IsConsistent (op_register_datanode now info) s c = register_datanode-IsConsistent s now info c
apply-IsConsistent (op_heartbeat now n host port capacity remaining) s c =
    heartbeat-IsConsistent s now n host port capacity remaining c
apply-IsConsistent (op_block_report n bs) s c = block_report-IsConsistent s n bs c
apply-IsConsistent (op_block_received n b) s c = block_received-IsConsistent s n b c
apply-IsConsistent op_enter_safe_mode s c =
    same_parts s _ (unfold enter_safe_mode in refl) (unfold enter_safe_mode in refl)
      (unfold enter_safe_mode in refl) (unfold enter_safe_mode in refl)
      (unfold enter_safe_mode in c.leases_distinct) c
apply-IsConsistent op_update_safe_mode s c =
    same_parts s _ (unfold update_safe_mode in refl) (unfold update_safe_mode in refl)
      (unfold update_safe_mode in refl) (unfold update_safe_mode in refl)
      (unfold update_safe_mode in c.leases_distinct) c
apply-IsConsistent (op_add_lease now holder path) s c =
    same_parts s _ (unfold add_lease in refl) (unfold add_lease in refl) (unfold add_lease in refl)
      (unfold add_lease in refl)
      (unfold add_lease in insert-DistinctKeys str_eq str_eq_iff path _ s.leases c.leases_distinct)
      c
apply-IsConsistent (op_remove_lease path) s c =
    same_parts s _ (unfold remove_lease in refl) (unfold remove_lease in refl)
      (unfold remove_lease in refl) (unfold remove_lease in refl)
      (unfold remove_lease in erase-DistinctKeys str_eq str_eq_iff path s.leases c.leases_distinct)
      c
apply-IsConsistent (op_check_leases now) s c = check_leases-IsConsistent s now c

initial-IsConsistent : IsConsistent initial
initial-IsConsistent = record {
  tree_formed = (refl, (tt, tt));
  nodes_distinct = tt;
  nodes_named = tt;
  blocks_distinct = tt;
  replicas_distinct = tt;
  reports_distinct = tt;
  leases_distinct = tt;
}

-- After any sequence of operations on a new `FsNamesystem`, with any block ids and any clock, the
-- tree is a well-formed directory (every name of a child occurs once), the maps of DataNodes, of
-- blocks, of reports and of leases have distinct keys, every DataNode is filed under its name, and no block lists a DataNode twice.
pub run-IsConsistent : (ops : List Operation) → IsConsistent (run ops initial)
run-IsConsistent ops = go ops initial initial-IsConsistent
  where
    go : (ops : List Operation) (s : FsNamesystem) → IsConsistent s → IsConsistent (run ops s)
    go [] s c = c
    go (op ∷ ops) s c = go ops (apply op s) (apply-IsConsistent op s c)
