-- ===== src/Ndfs/InodeTree/Examples.antt =====
-- Concrete runs of src/ndfs/inode_tree.h on a tree with one directory and one file.
use mini_hadoop.Common.{◌≡◌, ◌&&◌, refl, [], ◌∷◌, none, some, if◌then◌else◌}
use mini_hadoop.Common.Int.{pos}
use mini_hadoop.Common.Text.{Bytes, codes}
use mini_hadoop.Ndfs.InodeTree.{
  INode, inode, nil, cons, directory, file, split_path, mkdirs, delete, find_child,
}
use mini_hadoop.Ndfs.InodeTree.View.{view, directory_entry, is_prefix}
use mini_hadoop.Ndfs.InodeTree.WellFormed.{IsWellFormed}
use mini_hadoop.Ndfs.InodeTree.Refinement.{mkdirs_refines, delete_refines}

abbrev docs : Bytes
docs = codes "docs"

abbrev a : Bytes
a = codes "a"

abbrev tree : INode
tree =
    inode directory [] []
      (cons (inode directory docs [] (cons (inode file a (pos 7 ∷ []) nil) nil)) nil)

tree-IsWellFormed : IsWellFormed tree
unfolding find_child
tree-IsWellFormed = (tt, ((tt, ((tt, tt), refl, tt)), refl, tt))

mkdirs_refines_example : view (mkdirs tree (codes "/docs/new")).0 (docs ∷ codes "new" ∷ []) ≡ (
    if (mkdirs tree (codes "/docs/new")).1
      && is_prefix (docs ∷ codes "new" ∷ []) (split_path (codes "/docs/new"))
    then some directory_entry
    else view tree (docs ∷ codes "new" ∷ []))
mkdirs_refines_example = mkdirs_refines tree (codes "/docs/new") (docs ∷ codes "new" ∷ []) refl

delete_refines_example : view (delete tree (codes "/docs")).0 (docs ∷ a ∷ []) ≡ (
    if (delete tree (codes "/docs")).1 && is_prefix (split_path (codes "/docs")) (docs ∷ a ∷ [])
    then none
    else view tree (docs ∷ a ∷ []))
delete_refines_example = delete_refines tree (codes "/docs") (docs ∷ a ∷ []) tree-IsWellFormed
