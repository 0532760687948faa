-- ===== src/Ndfs/NameNode/Restart.antt =====
-- The stop of a NameNode of src/ndfs/name_node.h, and the start of another on the image that it left.
use mathlib.Core.Option
use mini_hadoop.Common.{
  ◌≡◌, refl, sym, ap, subst, Bool, List, [], ◌∷◌, some, arith, All, Bool-cases, Option-cases, inl,
  inr,
}
use mini_hadoop.Common.Assoc.{Map, lookup}
use mini_hadoop.Common.Int.{ℤ, IsInt64, ltb_ℤ}
use mini_hadoop.Common.Text.{Bytes, str_eq}
use mini_hadoop.Common.Text.Streams.{IsSolid}
use mini_hadoop.Ndfs.FsImage.{save}
use mini_hadoop.Ndfs.FsImage.RoundTrip.{load-save}
use mini_hadoop.Ndfs.FsNamesystem.{FsNamesystem, Block, DataNodeInfo, Lease, initial}
use mini_hadoop.Ndfs.FsNamesystem.Client.{
  start_file, start_file_cases, add_block, delete_path, make_dirs, started_tree, is_file,
}
use mini_hadoop.Ndfs.FsNamesystem.Invariant.{IsTree}
use mini_hadoop.Ndfs.FsNamesystem.Invariant.Operations.{
  Operation, op_start_file, op_add_block, op_delete, op_mkdirs, op_register_datanode, op_heartbeat,
  op_block_report, op_block_received, op_enter_safe_mode, op_update_safe_mode, op_add_lease,
  op_remove_lease, op_check_leases, apply, run, run-IsConsistent,
}
use mini_hadoop.Ndfs.FsNamesystem.DataNodes.{
  register_datanode, heartbeat, block_report, block_received, report_block, report_blocks,
}
use mini_hadoop.Ndfs.FsNamesystem.Leases.{add_lease, remove_lease, check_loop, check_leases}
use mini_hadoop.Ndfs.FsNamesystem.SafeMode.{enter_safe_mode, update_safe_mode}
use mini_hadoop.Ndfs.InodeTree.{INode, inode, directory, file, get_node, delete}
use mini_hadoop.Ndfs.NameNode.Image.{start, stop, with_tree}
use mini_hadoop.Ndfs.NameNode.SavableTrees.{
  IsImage, mkdirs-IsImage, delete-IsImage, push_block-IsImage, is_file-IsFileAt, made-IsFileAt,
  started_tree-IsImage,
}

start_file-IsImage :
    (id : ℤ) (path : Bytes) (overwrite : Bool) (s : FsNamesystem)
    → IsSolid path
    → IsInt64 id
    → IsImage s.tree
    → IsImage (start_file id path overwrite s).0.tree
start_file-IsImage id path overwrite s solid hid h =
    let started = started_tree-IsImage path overwrite s.tree solid h in
    start_file_cases (λ r. IsImage r.0.tree) id path overwrite s h (λ _. started)
      (λ _ _ made.
        push_block-IsImage (started_tree path overwrite s.tree).0 path id
          (made-IsFileAt _ path made) hid started)

add_block-IsImage :
    (id : ℤ) (path : Bytes) (s : FsNamesystem)
    → IsInt64 id
    → IsImage s.tree
    → IsImage (add_block id path s).0.tree
unfolding add_block
add_block-IsImage id path s hid h = elim (Bool-cases (is_file s.tree path)) [
  | inl e ↦ rw e (push_block-IsImage s.tree path id (is_file-IsFileAt s.tree path e) hid h)
  | inr e ↦ rw e h
]

delete_path-IsImage :
    (path : Bytes) (s : FsNamesystem) → IsImage s.tree → IsImage (delete_path path s).0.tree
unfolding delete_path
delete_path-IsImage path s h = elim (Option-cases (get_node s.tree path)) [
  | inl e ↦ rw (delete_path, e) h
  | inr (node, e) ↦ rw (delete_path, e) (delete-IsImage s.tree path h)
]

check_loop-IsImage :
    (now : ℤ) (m : Map Bytes Lease) (t : INode) → IsImage t → IsImage (check_loop now m t).0
unfolding check_loop
check_loop-IsImage now [] t h = h
check_loop-IsImage now ((path, l) ∷ m) t h = elim (Bool-cases (ltb_ℤ l.expiry now)) [
  | inl e ↦
      rw e (check_loop-IsImage now m (delete t l.lease_path).0 (delete-IsImage t l.lease_path h))
  | inr e ↦ rw e (check_loop-IsImage now m t h)
]

tree-report_blocks :
    (n : Bytes) (info : DataNodeInfo) (bs : List Block) (s : FsNamesystem)
    → (report_blocks n info bs s).tree ≡ s.tree
tree-report_blocks n info [] s = refl
tree-report_blocks n info (b ∷ bs) s =
    tree-report_blocks n info bs (report_block n info b.block_id s)

tree-block_report :
    (n : Bytes) (bs : List Block) (s : FsNamesystem) → (block_report n bs s).tree ≡ s.tree
unfolding block_report
tree-block_report n bs s = elim (Option-cases (lookup str_eq n s.datanodes)) [
  | inl e ↦ rw (block_report, e) refl
  | inr (info, e) ↦ rw (block_report, e) (tree-report_blocks n info bs _)
]

tree-block_received :
    (n : Bytes) (b : Block) (s : FsNamesystem) → (block_received n b s).tree ≡ s.tree
unfolding block_received
tree-block_received n b s = elim (Option-cases (lookup str_eq n s.datanodes)) [
  | inl e ↦ rw (block_received, e) refl
  | inr (info, e) ↦ rw (block_received, e) refl
]

-- Paths of new nodes without blanks, and block ids of 64 bits.
abbrev pub IsSavable : Operation → Type 0
IsSavable (op_start_file id path overwrite) = IsSolid path × IsInt64 id
IsSavable (op_add_block id path) = IsInt64 id
IsSavable (op_mkdirs path) = IsSolid path
IsSavable _ = Unit

apply-IsImage :
    (op : Operation) (s : FsNamesystem) → IsSavable op → IsImage s.tree → IsImage (apply op s).tree
apply-IsImage (op_start_file id path overwrite) s (solid, hid) h =
    start_file-IsImage id path overwrite s solid hid h
apply-IsImage (op_add_block id path) s hid h = add_block-IsImage id path s hid h
apply-IsImage (op_delete path) s _ h = delete_path-IsImage path s h
apply-IsImage (op_mkdirs path) s solid h = unfold make_dirs in mkdirs-IsImage s.tree path solid h
apply-IsImage (op_register_datanode now info) s _ h = unfold register_datanode in h
apply-IsImage (op_heartbeat now n host port capacity remaining) s _ h = unfold heartbeat in h
apply-IsImage (op_block_report n bs) s _ h = subst IsImage (sym (tree-block_report n bs s)) h
apply-IsImage (op_block_received n b) s _ h = subst IsImage (sym (tree-block_received n b s)) h
apply-IsImage op_enter_safe_mode s _ h = unfold enter_safe_mode in h
apply-IsImage op_update_safe_mode s _ h = unfold update_safe_mode in h
apply-IsImage (op_add_lease now holder path) s _ h = unfold add_lease in h
apply-IsImage (op_remove_lease path) s _ h = unfold remove_lease in h
apply-IsImage (op_check_leases now) s _ h =
    unfold check_leases in check_loop-IsImage now s.leases s.tree h

run-IsImage :
    (ops : List Operation) (s : FsNamesystem)
    → All IsSavable ops
    → IsImage s.tree
    → IsImage (run ops s).tree
run-IsImage [] s hs h = h
run-IsImage (op ∷ ops) s (hop, hs) h = run-IsImage ops (apply op s) hs (apply-IsImage op s hop h)

loaded : (t : INode) → IsTree t → IsImage t → start (some (save t)) ≡ some (with_tree t)
unfolding start
loaded (inode file n b cs) (d, wf) h = absurd (ground arith)
loaded (inode directory n b cs) (d, (_, wf)) (hn, (hb, h)) =
    rw (hn, hb) (ap (Option.map with_tree) (load-save cs wf h))

-- A NameNode that is started on the image which another has left after any operations, in which
-- the paths of new directories and files have no blanks and block ids are 64-bit integers, has
-- the tree of the other, and is new in all else.
pub start-stop :
    (ops : List Operation)
    → All IsSavable ops
    → start (some (stop (run ops initial))) ≡ some (with_tree (run ops initial).tree)
unfolding stop
start-stop ops h =
    loaded (run ops initial).tree (run-IsConsistent ops).tree_formed
      (run-IsImage ops initial h (refl, (refl, tt)))
