-- ===== src/Ndfs/FsNamesystem/Deletion.antt =====
-- What a `Delete` of src/ndfs/fs_namesystem.h leaves of a file.
use mathlib.Core.Option
use mini_hadoop.Common.{
  ◌≡◌, refl, sym, ap, ◌∙◌, Bool, true, List, [], ◌∷◌, Option, none, some, arith, All,
}
use mini_hadoop.Common.Int.{ℤ, eqb_ℤ, eqb_ℤ_iff}
use mini_hadoop.Common.Text.{Bytes, str_eq_iff}
use mini_hadoop.Common.Assoc.{Map, DistinctKeys, lookup, erase, lookup-erase, erase-DistinctKeys}
use mini_hadoop.Ndfs.InodeTree.{
  INode, inode, directory, file, get_node, split_path, delete, delete_at, Children,
}
use mini_hadoop.Ndfs.InodeTree.View.{entry, directory_entry, file_entry, view, view-nil, is_prefix}
use mini_hadoop.Ndfs.InodeTree.View.Delete.{delete_at_found, view-delete_at}
use mini_hadoop.Ndfs.InodeTree.Refinement.{get_node-view}
use mini_hadoop.Ndfs.FsNamesystem.{FsNamesystem, DataNodeInfo}
use mini_hadoop.Ndfs.FsNamesystem.Client.{delete_path, erase_blocks, get_blocks}
use mini_hadoop.Ndfs.FsNamesystem.Invariant.{IsTree}
use mini_hadoop.Ndfs.FsNamesystem.Files.{HasBlocks}

lookup-erase_blocks :
    (ids : List ℤ) (i : ℤ) (m : Map ℤ (List DataNodeInfo))
    → DistinctKeys eqb_ℤ m
    → lookup eqb_ℤ i m ≡ none
    → lookup eqb_ℤ i (erase_blocks ids m) ≡ none
lookup-erase_blocks [] i m d e = e
lookup-erase_blocks (id ∷ ids) i m d e =
    lookup-erase_blocks ids i (erase eqb_ℤ id m) (erase-DistinctKeys eqb_ℤ eqb_ℤ_iff id m d)
      (ground (arith, lookup-erase eqb_ℤ eqb_ℤ_iff id i m d))

-- No id of the list has an entry.
abbrev pub Forgotten : Map ℤ (List DataNodeInfo) → List ℤ → Type 0
Forgotten m = All (λ i. lookup eqb_ℤ i m ≡ none)

erase_blocks-Forgotten :
    (ids : List ℤ) (m : Map ℤ (List DataNodeInfo))
    → DistinctKeys eqb_ℤ m
    → Forgotten (erase_blocks ids m) ids
erase_blocks-Forgotten [] m d = tt
erase_blocks-Forgotten (id ∷ ids) m d =
    let d' = erase-DistinctKeys eqb_ℤ eqb_ℤ_iff id m d in
    let same : eqb_ℤ id id ≡ true = (eqb_ℤ_iff id id).1 refl in
    (
      lookup-erase_blocks ids id (erase eqb_ℤ id m) d'
          (lookup-erase eqb_ℤ eqb_ℤ_iff id id m d ∙ rw same refl),
      erase_blocks-Forgotten ids (erase eqb_ℤ id m) d',
    )

is_prefix_refl : (ps : List Bytes) → is_prefix ps ps ≡ true
is_prefix_refl [] = refl
is_prefix_refl (p ∷ ps) = ground (arith, str_eq_iff p p, is_prefix_refl ps)

delete_path_of_file :
    (s : FsNamesystem) (path : Bytes) (ids : List ℤ)
    → HasBlocks s path ids
    → delete_path path s ≡ (
      record s {
        tree = (delete s.tree path).0;
        block_to_datanodes = erase_blocks ids s.block_to_datanodes;
      },
      (delete s.tree path).1,
    )
unfolding delete_path delete
delete_path_of_file s path ids h = found (get_node s.tree path) refl (get_node-view s.tree path ∙ h)
  where
    result : List ℤ → FsNamesystem × Bool
    result b = (
      record s {
        tree = (delete s.tree path).0;
        block_to_datanodes = erase_blocks b s.block_to_datanodes;
      },
      (delete s.tree path).1,
    )

    found :
        (o : Option INode)
        → get_node s.tree path ≡ o
        → Option.map entry o ≡ some (file_entry ids)
        → delete_path path s ≡ result ids
    found none e k = cc
    found (some (inode directory n b cs)) e k = cc
    found (some (inode file n b cs)) e k =
        let same : b ≡ ids = cc in rw (e, delete_path) (ap result same)

deleted_file :
    (root : INode) (ps : List Bytes) (ids : List ℤ)
    → IsTree root
    → view root ps ≡ some (file_entry ids)
    → ((delete_at ps root).1 ≡ true) × (view (delete_at ps root).0 ps ≡ none)
deleted_file (inode directory n b cs) [] ids h e = absurd (root_entry n b cs ids e)
  where
    root_entry :
        (n : Bytes) (b : List ℤ) (cs : Children) (ids : List ℤ)
        → view (inode directory n b cs) [] ≡ some (file_entry ids)
        → ⊥
    root_entry n b cs ids k =
        let no : some directory_entry ≡ some (file_entry ids) =
          sym (view-nil (inode directory n b cs)) ∙ k in
        cc
deleted_file (inode file n b cs) [] ids (d, h) e = cc
deleted_file root (p ∷ ps) ids (d, h) e =
    let done : (delete_at (p ∷ ps) root).1 ≡ true = ground (arith, delete_at_found p ps root, e) in
    (done, view-delete_at (p ∷ ps) (p ∷ ps) root h done ∙ rw (is_prefix_refl (p ∷ ps)) refl)

get_blocks-missing :
    (s : FsNamesystem) (path : Bytes)
    → view s.tree (split_path path) ≡ none
    → get_blocks path s ≡ ([], [])
unfolding get_blocks
get_blocks-missing s path h = found (get_node s.tree path) refl (get_node-view s.tree path ∙ h)
  where
    found :
        (o : Option INode)
        → get_node s.tree path ≡ o
        → Option.map entry o ≡ none
        → get_blocks path s ≡ ([], [])
    found none e k = rw (e, get_blocks) refl
    found (some node) e k = cc

-- `Delete` of a file, where the tree is a well-formed directory and the map of blocks has distinct
-- keys, succeeds: the path leads nowhere then, so `GetBlocks`
-- answers nothing, and the NameNode has no entry for any of the blocks of the file.
pub delete_path_of_file_lem :
    (s : FsNamesystem) (path : Bytes) (ids : List ℤ)
    → IsTree s.tree
    → DistinctKeys eqb_ℤ s.block_to_datanodes
    → HasBlocks s path ids
    → ((delete_path path s).1 ≡ true)
      × (get_blocks path (delete_path path s).0 ≡ ([], []))
      × Forgotten (delete_path path s).0.block_to_datanodes ids
unfolding delete
delete_path_of_file_lem s path ids formed distinct h =
    let gone = deleted_file s.tree (split_path path) ids formed h in
    rw (delete_path_of_file s path ids h) (
      gone.0,
      get_blocks-missing _ path gone.1,
      erase_blocks-Forgotten ids s.block_to_datanodes distinct,
    )
