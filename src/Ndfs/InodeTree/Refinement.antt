-- ===== src/Ndfs/InodeTree/Refinement.antt =====
-- The methods of `InodeTree`, by path, against the abstract view: a map from paths to entries.
use mathlib.Core.Option
use mini_hadoop.Common.{
  ap, ◌&&◌, Bool-cases, inl, inr, ◌≡◌, refl, List, [], Option, none, some, if◌then◌else◌,
}
use mini_hadoop.Common.Int.{ℤ}
use mini_hadoop.Common.Text.{Bytes}
use mini_hadoop.Ndfs.InodeTree.{
  INode, directory, node_type, split_path, get_node, mkdirs, create_file, delete, push_block,
}
use mini_hadoop.Ndfs.InodeTree.View.{
  Entry, entry, directory_entry, file_entry, view, is_prefix, path_eq,
}
use mini_hadoop.Ndfs.InodeTree.View.Mkdirs.{view-mkdirs_at, mkdirs_at_failed}
use mini_hadoop.Ndfs.InodeTree.View.CreateFile.{view-create_file_at, create_file_at_failed}
use mini_hadoop.Ndfs.InodeTree.View.Delete.{view-delete_at, delete_at_failed}
use mini_hadoop.Ndfs.InodeTree.WellFormed.{IsWellFormed}
use mini_hadoop.Ndfs.InodeTree.WellFormed.Operations.{
  mkdirs_at-IsWellFormed, create_file_at-IsWellFormed, delete_at-IsWellFormed,
  push_block_at-IsWellFormed,
}

-- The tree as the map of paths that `GetNode` answers for.
abbrev pub Entries : Type 0
Entries = List Bytes → Option Entry

-- `GetNode` is a look-up in the view.
pub get_node-view :
    (root : INode) (path : Bytes)
    → Option.map entry (get_node root path) ≡ view root (split_path path)
unfolding get_node view
get_node-view root path = refl

-- `Mkdirs` on a directory either succeeds, and then every prefix of the path is a directory and
-- every other path leads where it led, or it fails and every path leads where it led.
pub mkdirs_refines :
    (root : INode) (path : Bytes) (qs : List Bytes)
    → node_type root ≡ directory
    → view (mkdirs root path).0 qs ≡ (
        if (mkdirs root path).1 && is_prefix qs (split_path path)
        then some directory_entry
        else view root qs)
unfolding mkdirs
mkdirs_refines root path qs d = elim (Bool-cases (mkdirs root path).1) [
  | inl e ↦ rw e (view-mkdirs_at (split_path path) qs root d e)
  | inr e ↦ rw e (ap (λ (n : INode). view n qs) (mkdirs_at_failed (split_path path) root e))
]

-- `CreateFile` either succeeds, where there was nothing at the path, and then an empty file is
-- there and every other path leads where it led, or it fails and every path leads where it led.
pub create_file_refines :
    (root : INode) (path : Bytes) (qs : List Bytes)
    → ((if (create_file root path).1 then view root (split_path path) else none) ≡ none)
      × (view (create_file root path).0 qs ≡ (
          if (create_file root path).1 && path_eq qs (split_path path)
          then some (file_entry [])
          else view root qs))
unfolding create_file
create_file_refines root path qs = elim (Bool-cases (create_file root path).1) [
  | inl e ↦ rw e (view-create_file_at (split_path path) qs root e)
  | inr e ↦
      rw e (refl, ap (λ (n : INode). view n qs) (create_file_at_failed (split_path path) root e))
]

-- On a well-formed tree `Delete` either succeeds, and then the path and all paths below it lead
-- nowhere and every other path leads where it led, or it fails and every path leads where it led.
pub delete_refines :
    (root : INode) (path : Bytes) (qs : List Bytes)
    → IsWellFormed root
    → view (delete root path).0 qs
      ≡ (if (delete root path).1 && is_prefix (split_path path) qs then none else view root qs)
unfolding delete
delete_refines root path qs wf = elim (Bool-cases (delete root path).1) [
  | inl e ↦ rw e (view-delete_at (split_path path) qs root wf e)
  | inr e ↦ rw e (ap (λ (n : INode). view n qs) (delete_at_failed (split_path path) root e))
]

-- A well-formed directory that `Mkdirs`, `CreateFile`, `Delete` or the append of a block id is
-- called on stays well formed: in each directory the names are unique, and a file has no children.
pub operations-IsWellFormed :
    (root : INode) (path : Bytes) (id : ℤ)
    → node_type root ≡ directory
    → IsWellFormed root
    → IsWellFormed (mkdirs root path).0
      × IsWellFormed (create_file root path).0
      × IsWellFormed (delete root path).0
      × IsWellFormed (push_block root path id)
unfolding mkdirs create_file delete push_block
operations-IsWellFormed root path id d wf = (
  mkdirs_at-IsWellFormed (split_path path) root d wf,
  create_file_at-IsWellFormed (split_path path) root d wf,
  delete_at-IsWellFormed (split_path path) root wf,
  push_block_at-IsWellFormed (split_path path) id root wf,
)
