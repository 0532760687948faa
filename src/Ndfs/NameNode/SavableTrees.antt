-- ===== src/Ndfs/NameNode/SavableTrees.antt =====
-- Trees that an image can hold, under the operations of the tree as src/ndfs/fs_namesystem.h calls
-- them.
use mini_hadoop.Common.{
  ◌≡◌, refl, ◌∙◌, Bool, true, false, [], ◌∷◌, some, arith, ◌&&◌, if◌then◌else◌, Option-cases, inl,
  inr, ℕ, suc, zero, take,
}
use mini_hadoop.Common.Int.{ℤ, IsInt64}
use mini_hadoop.Common.Text.{Bytes}
use mini_hadoop.Common.Text.Streams.{IsSolid}
use mini_hadoop.Ndfs.FsImage.Storable.{
  IsBody, mkdirs_at-IsBody, create_file_at-IsBody, delete_at-IsBody, push_block_at-IsBody,
}
use mini_hadoop.Ndfs.FsImage.SolidPaths.{split_path-IsStorableName}
use mini_hadoop.Ndfs.FsNamesystem.Client.{
  get_parent_dir, rfind_slash, started_tree, exists, is_file,
}
use mini_hadoop.Ndfs.FsNamesystem.Files.{path_eq_refl}
use mini_hadoop.Ndfs.InodeTree.{
  INode, inode, directory, file, name, node_type, get_node, split_path, mkdirs, create_file, delete,
  push_block,
}
use mini_hadoop.Ndfs.InodeTree.Refinement.{create_file_refines, get_node-view}
use mini_hadoop.Ndfs.InodeTree.View.{
  view, file_entry, name-mkdirs_at, name-create_file_at, name-delete_at, name-push_block_at,
}

-- A tree that an image can hold.
abbrev pub IsImage : INode → Type 0
IsImage tree = (name tree ≡ []) × IsBody tree

pub mkdirs-IsImage :
    (t : INode) (path : Bytes) → IsSolid path → IsImage t → IsImage (mkdirs t path).0
unfolding mkdirs
mkdirs-IsImage t path solid (hn, h) = (
  name-mkdirs_at (split_path path) t ∙ hn,
  mkdirs_at-IsBody (split_path path) t (split_path-IsStorableName path solid) h,
)

pub create_file-IsImage :
    (t : INode) (path : Bytes) → IsSolid path → IsImage t → IsImage (create_file t path).0
unfolding create_file
create_file-IsImage t path solid (hn, h) = (
  name-create_file_at (split_path path) t ∙ hn,
  create_file_at-IsBody (split_path path) t (split_path-IsStorableName path solid) h,
)

pub delete-IsImage : (t : INode) (path : Bytes) → IsImage t → IsImage (delete t path).0
unfolding delete
delete-IsImage t path (hn, h) =
    (name-delete_at (split_path path) t ∙ hn, delete_at-IsBody (split_path path) t h)

-- A path at which there is a file.
abbrev pub IsFileAt : INode → Bytes → Type 0
IsFileAt t path = (node : INode) × (get_node t path ≡ some node) × (node_type node ≡ file)

pub push_block-IsImage :
    (t : INode) (path : Bytes) (id : ℤ)
    → IsFileAt t path
    → IsInt64 id
    → IsImage t
    → IsImage (push_block t path id)
unfolding push_block get_node
push_block-IsImage t path id (node, found, typed) hid (hn, h) = (
  name-push_block_at (split_path path) id t ∙ hn,
  push_block_at-IsBody (split_path path) id t node found typed hid h,
)

pub is_file-IsFileAt : (t : INode) (path : Bytes) → is_file t path ≡ true → IsFileAt t path
is_file-IsFileAt t path e = elim (Option-cases (get_node t path)) [
  | inl k ↦ absurd (ground arith)
  | inr (inode file n b cs, k) ↦ (inode file n b cs, k, refl)
  | inr (inode directory n b cs, k) ↦ absurd (ground arith)
]

pub made-IsFileAt :
    (t : INode) (path : Bytes)
    → (create_file t path).1 ≡ true
    → IsFileAt (create_file t path).0 path
made-IsFileAt t path e =
    let refines = (create_file_refines t path (split_path path)).1 in
    let seen : view (create_file t path).0 (split_path path) ≡ some (file_entry []) =
      refines ∙ rw (e, path_eq_refl (split_path path)) refl in
    elim (Option-cases (get_node (create_file t path).0 path)) [
      | inl k ↦ absurd (ground (arith, get_node-view (create_file t path).0 path))
      | inr (inode file n b cs, k) ↦ (inode file n b cs, k, refl)
      | inr (inode directory n b cs, k) ↦
          absurd (ground (arith, get_node-view (create_file t path).0 path))
    ]

pub take-IsSolid : (k : ℕ) (s : Bytes) → IsSolid s → IsSolid (take k s)
take-IsSolid zero s h = tt
take-IsSolid (suc k) [] h = tt
take-IsSolid (suc k) (c ∷ s) (hc, h) = (hc, take-IsSolid k s h)

pub get_parent_dir-IsSolid : (path : Bytes) → IsSolid path → IsSolid (get_parent_dir path)
unfolding get_parent_dir
get_parent_dir-IsSolid path h = elim (Option-cases (rfind_slash 0 path)) [
  | inl e ↦ rw (get_parent_dir, e) (refl, tt)
  | inr (zero, e) ↦ rw (get_parent_dir, e) (refl, tt)
  | inr (suc k, e) ↦ rw (get_parent_dir, e) (take-IsSolid (suc k) path h)
]

pub started_tree-IsImage :
    (path : Bytes) (overwrite : Bool) (t : INode)
    → IsSolid path
    → IsImage t
    → IsImage (started_tree path overwrite t).0
started_tree-IsImage path overwrite t solid h = create_file-IsImage _ path solid (
    mkdirs-IsImage _ (get_parent_dir path) (get_parent_dir-IsSolid path solid)
      (cleared (exists t path && overwrite)))
  where
    cleared : (b : Bool) → IsImage (if b then (delete t path).0 else t)
    cleared true = delete-IsImage t path h
    cleared false = h
