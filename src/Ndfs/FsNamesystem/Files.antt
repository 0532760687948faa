-- ===== src/Ndfs/FsNamesystem/Files.antt =====
-- What a client of src/ndfs/fs_namesystem.h sees of a file: its blocks and their DataNodes.
use mathlib.Core.Option
use mini_hadoop.Ndfs.InodeTree.View.CreateFile.{view-create_file_at}
use mini_hadoop.Common.{
  ◌≡◌, refl, sym, ap, ap₂, ◌∙◌, Bool, true, false, not, ◌&&◌, List, [], ◌∷◌, ◌++◌, map, Option,
  none, some, arith, All,
}
use mini_hadoop.Common.Int.{ℤ, pos, eqb_ℤ, eqb_ℤ_iff}
use mini_hadoop.Common.Text.{Bytes, str_eq_iff}
use mini_hadoop.Common.Assoc.{lookup-insert}
use mini_hadoop.Ndfs.InodeTree.{
  INode, inode, directory, file, get_node, split_path, push_block, create_file, mkdirs,
}
use mini_hadoop.Ndfs.InodeTree.View.{entry, file_entry, view, path_eq}
use mini_hadoop.Ndfs.InodeTree.View.PushBlock.{view-push_block_at}
use mini_hadoop.Ndfs.InodeTree.Refinement.{get_node-view}
use mini_hadoop.Ndfs.FsNamesystem.{
  FsNamesystem, Block, generate, DataNodeInfo, choose_targets, default_replication, datanodes_of,
  set_datanodes, in_safe_mode,
}
use mini_hadoop.Ndfs.FsNamesystem.Client.{
  allocate, started_tree, start_file, add_block, get_blocks, is_file, exists, cleared_tree,
  get_parent_dir,
}

-- The path leads to a file with these block ids.
abbrev pub HasBlocks : FsNamesystem → Bytes → List ℤ → Type 0
HasBlocks s path ids = view s.tree (split_path path) ≡ some (file_entry ids)

abbrev pub located : FsNamesystem → List ℤ → List Block × List (List DataNodeInfo)
located s ids = (map (λ id. generate id (pos 0)) ids, map (λ id. datanodes_of id s) ids)

get_blocks_of_node :
    (s : FsNamesystem) (path : Bytes) (node : INode) (ids : List ℤ)
    → get_node s.tree path ≡ some node
    → entry node ≡ file_entry ids
    → get_blocks path s ≡ located s ids
unfolding get_blocks
get_blocks_of_node s path (inode directory n b cs) ids e h = cc
get_blocks_of_node s path (inode file n b cs) ids e h =
    let same : b ≡ ids = cc in rw (e, get_blocks) (ap (located s) same)

-- `GetBlocks` of a file.
pub get_blocks-HasBlocks :
    (s : FsNamesystem) (path : Bytes) (ids : List ℤ)
    → HasBlocks s path ids
    → get_blocks path s ≡ located s ids
get_blocks-HasBlocks s path ids h =
    found (get_node s.tree path) refl (get_node-view s.tree path ∙ h)
  where
    found :
        (o : Option INode)
        → get_node s.tree path ≡ o
        → Option.map entry o ≡ some (file_entry ids)
        → get_blocks path s ≡ located s ids
    found none e k = cc
    found (some node) e k = get_blocks_of_node s path node ids e cc

-- The id is none of these.
abbrev pub Fresh : ℤ → List ℤ → Type 0
Fresh id = All (λ i. eqb_ℤ id i ≡ false)

located_elsewhere :
    (s t : FsNamesystem) (id : ℤ) (dns : List DataNodeInfo) (ids : List ℤ)
    → t.block_to_datanodes ≡ (set_datanodes id dns s).block_to_datanodes
    → Fresh id ids
    → located t ids ≡ located s ids
located_elsewhere s t id dns [] e h = refl
located_elsewhere s t id dns (i ∷ ids) e (hi, h) =
    let rest = located_elsewhere s t id dns ids e h in
    let here : datanodes_of i t ≡ datanodes_of i s =
      rw (e, lookup-insert eqb_ℤ eqb_ℤ_iff id i dns s.block_to_datanodes, hi) refl in
    ap₂ (λ l m. (generate i (pos 0) ∷ l, m)) (ap (λ p. p.0) rest)
      (ap₂ (λ d m. d ∷ m) here (ap (λ p. p.1) rest))

located_snoc :
    (s : FsNamesystem) (id : ℤ) (ids : List ℤ)
    → located s (ids ++ (id ∷ [])) ≡ (
      (located s ids).0 ++ (generate id (pos 0) ∷ []),
      (located s ids).1 ++ (datanodes_of id s ∷ []),
    )
located_snoc s id [] = refl
located_snoc s id (i ∷ ids) =
    let rest = located_snoc s id ids in
    ap₂ (λ l m. (generate i (pos 0) ∷ l, datanodes_of i s ∷ m)) (ap (λ p. p.0) rest)
      (ap (λ p. p.1) rest)

pub path_eq_refl : (ps : List Bytes) → path_eq ps ps ≡ true
path_eq_refl [] = refl
path_eq_refl (p ∷ ps) = ground (arith, str_eq_iff p p, path_eq_refl ps)

pub allocated_targets :
    (s : FsNamesystem) (id : ℤ) (path : Bytes)
    → datanodes_of id (allocate id path s).0 ≡ choose_targets default_replication s
allocated_targets s id path =
    let same : eqb_ℤ id id ≡ true = (eqb_ℤ_iff id id).1 refl in
    rw
      (
        lookup-insert eqb_ℤ eqb_ℤ_iff id id (choose_targets default_replication s)
            s.block_to_datanodes,
        same,
      )
      refl

pub allocate-HasBlocks :
    (s : FsNamesystem) (id : ℤ) (path : Bytes) (ids : List ℤ)
    → HasBlocks s path ids
    → HasBlocks (allocate id path s).0 path (ids ++ (id ∷ []))
unfolding push_block
allocate-HasBlocks s id path ids h =
    view-push_block_at (split_path path) (split_path path) id s.tree
    ∙ rw (path_eq_refl (split_path path), h) refl

get_blocks-allocate :
    (s : FsNamesystem) (id : ℤ) (path : Bytes) (ids : List ℤ)
    → HasBlocks s path ids
    → Fresh id ids
    → get_blocks path (allocate id path s).0 ≡ (
      (located s ids).0 ++ (generate id (pos 0) ∷ []),
      (located s ids).1 ++ (choose_targets default_replication s ∷ []),
    )
get_blocks-allocate s id path ids h fresh =
    let t = (allocate id path s).0 in
    get_blocks-HasBlocks t path (ids ++ (id ∷ [])) (allocate-HasBlocks s id path ids h)
    ∙ located_snoc t id ids
    ∙ ap₂ (λ l d. (l.0 ++ (generate id (pos 0) ∷ []), l.1 ++ (d ∷ [])))
        (located_elsewhere s t id (choose_targets default_replication s) ids refl fresh)
        (allocated_targets s id path)

is_file-HasBlocks :
    (s : FsNamesystem) (path : Bytes) (ids : List ℤ)
    → HasBlocks s path ids
    → is_file s.tree path ≡ true
is_file-HasBlocks s path ids h = found (get_node s.tree path) refl (get_node-view s.tree path ∙ h)
  where
    found :
        (o : Option INode)
        → get_node s.tree path ≡ o
        → Option.map entry o ≡ some (file_entry ids)
        → is_file s.tree path ≡ true
    found none e k = cc
    found (some (inode directory n b cs)) e k = cc
    found (some (inode file n b cs)) e k = rw (e, is_file) refl

pub add_block-allocate :
    (s : FsNamesystem) (id : ℤ) (path : Bytes) (ids : List ℤ)
    → HasBlocks s path ids
    → add_block id path s ≡ allocate id path s
unfolding add_block
add_block-allocate s id path ids h = rw (is_file-HasBlocks s path ids h) refl

-- `AddBlock` on a file, with an id that none of its blocks has, answers the new block with the
-- targets that `ChooseTargets` gives, and appends just these to what `GetBlocks` answers for it.
pub get_blocks-add_block :
    (s : FsNamesystem) (id : ℤ) (path : Bytes) (ids : List ℤ)
    → HasBlocks s path ids
    → Fresh id ids
    → ((add_block id path s).1 ≡ (generate id (pos 0), choose_targets default_replication s))
      × (get_blocks path (add_block id path s).0 ≡ (
        (get_blocks path s).0 ++ (generate id (pos 0) ∷ []),
        (get_blocks path s).1 ++ (choose_targets default_replication s ∷ []),
      ))
get_blocks-add_block s id path ids h fresh =
    rw (add_block-allocate s id path ids h, get_blocks-HasBlocks s path ids h)
      (refl, get_blocks-allocate s id path ids h fresh)

-- `AddBlock` on one file changes nothing that `GetBlocks` answers for another one, if no block of
-- the other has the new id.
pub get_blocks-add_block_elsewhere :
    (s : FsNamesystem) (id : ℤ) (path q : Bytes) (ids others : List ℤ)
    → HasBlocks s path ids
    → HasBlocks s q others
    → path_eq (split_path q) (split_path path) ≡ false
    → Fresh id others
    → get_blocks q (add_block id path s).0 ≡ get_blocks q s
unfolding push_block
get_blocks-add_block_elsewhere s id path q ids others h k e fresh =
    let t = (allocate id path s).0 in
    let kept : HasBlocks t q others =
      view-push_block_at (split_path path) (split_path q) id s.tree ∙ rw (e, k) refl in
    rw (add_block-allocate s id path ids h) (
      get_blocks-HasBlocks t q others kept
      ∙ located_elsewhere s t id (choose_targets default_replication s) others refl fresh
      ∙ sym (get_blocks-HasBlocks s q others k))

-- The state in which `StartFile` allocates the first block.
abbrev pub started_file : FsNamesystem → Bytes → Bool → FsNamesystem
started_file s path overwrite = record s { tree = (started_tree path overwrite s.tree).0 }

module _ (s : FsNamesystem) (id : ℤ) (path : Bytes) (overwrite : Bool)
    (out : in_safe_mode s ≡ false) (free : (exists s.tree path && not overwrite) ≡ false)
    (made : (started_tree path overwrite s.tree).1 ≡ true) where
  pub start_file-allocate :
      start_file id path overwrite s ≡ allocate id path (started_file s path overwrite)
  unfolding start_file
  start_file-allocate = rw (out, free, made) refl

  pub started_file-HasBlocks : HasBlocks (started_file s path overwrite) path []
  unfolding create_file
  started_file-HasBlocks =
      let cleared = (mkdirs (cleared_tree path overwrite s.tree) (get_parent_dir path)).0 in
      (view-create_file_at (split_path path) (split_path path) cleared made).1
      ∙ rw (path_eq_refl (split_path path)) refl

-- `StartFile` out of safe mode, on a path that is free or with `overwrite`, and where `CreateFile`
-- can make the file: it answers the new block with the targets that `ChooseTargets` gives, and
-- afterwards `GetBlocks` answers just that block and these targets.
pub get_blocks-start_file :
    (s : FsNamesystem) (id : ℤ) (path : Bytes) (overwrite : Bool)
    → in_safe_mode s ≡ false
    → (exists s.tree path && not overwrite) ≡ false
    → (started_tree path overwrite s.tree).1 ≡ true
    → ((start_file id path overwrite s).1
        ≡ (generate id (pos 0), choose_targets default_replication s))
      × (get_blocks path (start_file id path overwrite s).0
          ≡ (generate id (pos 0) ∷ [], choose_targets default_replication s ∷ []))
unfolding choose_targets
get_blocks-start_file s id path overwrite open_ free made =
    rw (start_file-allocate s id path overwrite open_ free made) (
      refl,
      get_blocks-allocate (started_file s path overwrite) id path []
          (started_file-HasBlocks s id path overwrite open_ free made) tt,
    )
