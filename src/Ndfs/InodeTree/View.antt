-- ===== src/Ndfs/InodeTree/View.antt =====
-- The tree as a partial map from paths to entries, and what each operation does to that map.
pub mod Steps
pub mod Mkdirs
pub mod CreateFile
pub mod Delete
pub mod PushBlock
use mathlib.Core.Option
use mini_hadoop.Common.{
  inl, inr, Option-cases, Bool, true, false, ◌&&◌, ◌≡◌, refl, List, [], ◌∷◌, Option, none, some,
  arith,
}
use mini_hadoop.Common.Int.{ℤ}
use mini_hadoop.Common.Text.{Bytes, str_eq, str_eq_iff, str_eq_refl}
use mini_hadoop.Ndfs.InodeTree.{
  INode, inode, children, find_child, NodeType, directory, file, name, node_type, get_node_at,
  mkdirs_at, create_file_at, delete_at, push_block_at,
}

-- What a path leads to: a directory, or a file with its block ids.
pub data Entry : Type 0 where
  directory_entry : Entry
  file_entry : List ℤ → Entry

abbrev pub entry : INode → Entry
entry (inode directory n b cs) = directory_entry
entry (inode file n b cs) = file_entry b

unfoldable pub view : INode → List Bytes → Option Entry
unfolding get_node_at
view root ps = Option.map entry (get_node_at ps root)

abbrev pub view_child : Option INode → List Bytes → Option Entry
view_child none qs = none
view_child (some c) qs = view c qs

pub view-cons :
    (cur : INode) (q : Bytes) (qs : List Bytes)
    → view cur (q ∷ qs) ≡ view_child (find_child (children cur) q) qs
unfolding view
view-cons cur q qs = elim (Option-cases (find_child (children cur) q)) [
  | inl e ↦ rw (e, get_node_at)
  | inr (c, e) ↦ rw (e, get_node_at)
]

pub view-nil : (cur : INode) → view cur [] ≡ some (entry cur)
unfolding view
view-nil cur = refl

abbrev pub is_prefix : List Bytes → List Bytes → Bool
is_prefix [] ps = true
is_prefix (q ∷ qs) [] = false
is_prefix (q ∷ qs) (p ∷ ps) = str_eq p q && is_prefix qs ps

abbrev pub path_eq : List Bytes → List Bytes → Bool
path_eq [] [] = true
path_eq (q ∷ qs) (p ∷ ps) = str_eq p q && path_eq qs ps
path_eq _ _ = false

-- No operation renames the node that it starts from.
pub name-mkdirs_at : (ps : List Bytes) (cur : INode) → name (mkdirs_at ps cur).0 ≡ name cur
unfolding mkdirs_at
name-mkdirs_at [] cur = refl
name-mkdirs_at (p ∷ ps) (inode t n b cs) = ground arith

pub name-create_file_at :
    (ps : List Bytes) (cur : INode) → name (create_file_at ps cur).0 ≡ name cur
unfolding create_file_at
name-create_file_at [] cur = refl
name-create_file_at (p ∷ []) (inode t n b cs) = ground arith
name-create_file_at (p ∷ q ∷ ps) (inode t n b cs) = ground arith

pub name-delete_at : (ps : List Bytes) (cur : INode) → name (delete_at ps cur).0 ≡ name cur
unfolding delete_at
name-delete_at [] cur = refl
name-delete_at (p ∷ []) (inode t n b cs) = ground arith
name-delete_at (p ∷ q ∷ ps) (inode t n b cs) = ground arith

pub name-push_block_at :
    (ps : List Bytes) (id : ℤ) (cur : INode) → name (push_block_at ps id cur) ≡ name cur
unfolding push_block_at
name-push_block_at [] id (inode t n b cs) = refl
name-push_block_at (p ∷ ps) id (inode t n b cs) = ground arith

-- Nor does any change its type.
pub node_type-mkdirs_at :
    (ps : List Bytes) (cur : INode) → node_type (mkdirs_at ps cur).0 ≡ node_type cur
unfolding mkdirs_at
node_type-mkdirs_at [] cur = refl
node_type-mkdirs_at (p ∷ ps) (inode t n b cs) = ground arith

pub node_type-create_file_at :
    (ps : List Bytes) (cur : INode) → node_type (create_file_at ps cur).0 ≡ node_type cur
unfolding create_file_at
node_type-create_file_at [] cur = refl
node_type-create_file_at (p ∷ []) (inode t n b cs) = ground arith
node_type-create_file_at (p ∷ q ∷ ps) (inode t n b cs) = ground arith

pub node_type-delete_at :
    (ps : List Bytes) (cur : INode) → node_type (delete_at ps cur).0 ≡ node_type cur
unfolding delete_at
node_type-delete_at [] cur = refl
node_type-delete_at (p ∷ []) (inode t n b cs) = ground arith
node_type-delete_at (p ∷ q ∷ ps) (inode t n b cs) = ground arith

pub node_type-push_block_at :
    (ps : List Bytes) (id : ℤ) (cur : INode) → node_type (push_block_at ps id cur) ≡ node_type cur
unfolding push_block_at
node_type-push_block_at [] id (inode t n b cs) = refl
node_type-push_block_at (p ∷ ps) id (inode t n b cs) = ground arith
