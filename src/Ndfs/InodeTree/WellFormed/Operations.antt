-- ===== src/Ndfs/InodeTree/WellFormed/Operations.antt =====
-- The operations of src/ndfs/inode_tree.h and the invariant of the tree.
use mini_hadoop.Common.{◌≡◌, refl, ◌∙◌, List, [], ◌∷◌, none, some, Option-cases, ◌⊎◌, inl, inr}
use mini_hadoop.Common.Int.{ℤ}
use mini_hadoop.Common.Text.{Bytes}
use mini_hadoop.Ndfs.InodeTree.{
  cons, INode, inode, NodeType, Children, nil, directory, file, name, new_node, node_type,
  find_child, set_child, remove_child, create_file_at, mkdirs_at, delete_at, push_block_at,
}
use mini_hadoop.Ndfs.InodeTree.Siblings.{find_child-name}
use mini_hadoop.Ndfs.InodeTree.View.{
  name-mkdirs_at, name-create_file_at, name-delete_at, name-push_block_at,
}
use mini_hadoop.Ndfs.InodeTree.View.Mkdirs.{mkdirs_at_absent, mkdirs_at_present}
use mini_hadoop.Ndfs.InodeTree.View.CreateFile.{
  create_here, create_exists, create_no_parent, create_below,
}
use mini_hadoop.Ndfs.InodeTree.View.Delete.{
  delete_here, delete_missing, delete_no_parent, delete_below,
}
use mini_hadoop.Ndfs.InodeTree.WellFormed.{
  IsWellFormed, NoChildren, find_child-IsWellFormed, push_child-AllDistinct, set_child-AllDistinct,
  remove_child-AllDistinct,
}

NodeType-cases : (t : NodeType) → (t ≡ directory) ⊎ (t ≡ file)
NodeType-cases directory = inl refl
NodeType-cases file = inr refl

-- A change of one child that keeps its name and its form keeps the form of the directory.
set_child-IsWellFormed :
    (t : NodeType) (n : Bytes) (b : List ℤ) (cs : Children) (p : Bytes) (c d : INode)
    → IsWellFormed (inode t n b cs)
    → find_child cs p ≡ some c
    → name d ≡ name c
    → IsWellFormed d
    → IsWellFormed (inode t n b (set_child cs p d))
set_child-IsWellFormed t n b cs p c d h e same hd = (
  NoChildren-set t cs h.0,
  set_child-AllDistinct cs p c d h.1 e (same ∙ find_child-name cs p c e) hd,
)
  where
    NoChildren-set :
        (t : NodeType) (cs : Children) → NoChildren t cs → NoChildren t (set_child cs p d)
    NoChildren-set directory cs k = tt
    NoChildren-set file nil k = unfold set_child in tt
    NoChildren-set file (cons x cs) k = absurd k

pub mkdirs_at-IsWellFormed :
    (ps : List Bytes) (cur : INode)
    → node_type cur ≡ directory
    → IsWellFormed cur
    → IsWellFormed (mkdirs_at ps cur).0
mkdirs_at-IsWellFormed [] cur d h = unfold mkdirs_at in h
mkdirs_at-IsWellFormed (p ∷ ps) (inode file n b cs) d h = cc
mkdirs_at-IsWellFormed (p ∷ ps) (inode directory n b cs) d h =
    elim (Option-cases (find_child cs p)) [
      | inl e ↦
          let new = new_node directory p in
          let free : find_child cs (name (mkdirs_at ps new).0) ≡ none =
            rw (name-mkdirs_at ps new) e in
          rw (mkdirs_at_absent p ps directory n b cs e)
            (tt, push_child-AllDistinct cs _ h.1 free (mkdirs_at-IsWellFormed ps new refl (tt, tt)))
      | inr (c, e) ↦ elim (NodeType-cases (node_type c)) [
        | inl k ↦
            rw (mkdirs_at_present p ps directory n b cs c e, k)
              (set_child-IsWellFormed directory n b cs p c _ h e (name-mkdirs_at ps c)
                (mkdirs_at-IsWellFormed ps c k (find_child-IsWellFormed cs p c h.1 e)))
        | inr k ↦ rw (mkdirs_at_present p ps directory n b cs c e, k) h
      ]
    ]

pub create_file_at-IsWellFormed :
    (ps : List Bytes) (cur : INode)
    → node_type cur ≡ directory
    → IsWellFormed cur
    → IsWellFormed (create_file_at ps cur).0
create_file_at-IsWellFormed [] cur d h = unfold create_file_at in h
create_file_at-IsWellFormed (p ∷ ps) (inode file n b cs) d h = cc
create_file_at-IsWellFormed (p ∷ []) (inode directory n b cs) d h =
    elim (Option-cases (find_child cs p)) [
      | inl e ↦
          rw (create_here p directory n b cs e)
            (tt, push_child-AllDistinct cs (new_node file p) h.1 e (tt, tt))
      | inr (c, e) ↦ rw (create_exists p directory n b cs c e) h
    ]
create_file_at-IsWellFormed (p ∷ q ∷ ps) (inode directory n b cs) d h =
    elim (Option-cases (find_child cs p)) [
      | inl e ↦ rw (create_no_parent p directory n b cs q ps e) h
      | inr (c, e) ↦ elim (NodeType-cases (node_type c)) [
        | inl k ↦
            rw (create_below p directory n b cs q ps c e, k)
              (set_child-IsWellFormed directory n b cs p c _ h e (name-create_file_at (q ∷ ps) c)
                (create_file_at-IsWellFormed (q ∷ ps) c k (find_child-IsWellFormed cs p c h.1 e)))
        | inr k ↦ rw (create_below p directory n b cs q ps c e, k) h
      ]
    ]

NoChildren-remove_child :
    (t : NodeType) (cs ds : Children) (p : Bytes)
    → NoChildren t cs
    → remove_child cs p ≡ some ds
    → NoChildren t ds
NoChildren-remove_child directory cs ds p h e = tt
NoChildren-remove_child file nil ds p h e = unfold remove_child in cc
NoChildren-remove_child file (cons x cs) ds p h e = absurd h

pub delete_at-IsWellFormed :
    (ps : List Bytes) (cur : INode) → IsWellFormed cur → IsWellFormed (delete_at ps cur).0
delete_at-IsWellFormed [] cur h = unfold delete_at in h
delete_at-IsWellFormed (p ∷ []) (inode t n b cs) h = elim (Option-cases (remove_child cs p)) [
  | inl e ↦ rw (delete_missing p t n b cs e) h
  | inr (ds, e) ↦
      rw (delete_here p t n b cs ds e)
        (NoChildren-remove_child t cs ds p h.0 e, remove_child-AllDistinct cs ds p h.1 e)
]
delete_at-IsWellFormed (p ∷ q ∷ ps) (inode t n b cs) h = elim (Option-cases (find_child cs p)) [
  | inl e ↦ rw (delete_no_parent p t n b cs q ps e) h
  | inr (c, e) ↦ rw (delete_below p t n b cs q ps c e) (
      set_child-IsWellFormed t n b cs p c _ h e (name-delete_at (q ∷ ps) c)
        (delete_at-IsWellFormed (q ∷ ps) c (find_child-IsWellFormed cs p c h.1 e)))
]

pub push_block_at-IsWellFormed :
    (ps : List Bytes) (id : ℤ) (cur : INode)
    → IsWellFormed cur
    → IsWellFormed (push_block_at ps id cur)
unfolding push_block_at
push_block_at-IsWellFormed [] id (inode t n b cs) h = h
push_block_at-IsWellFormed (p ∷ ps) id (inode t n b cs) h = elim (Option-cases (find_child cs p)) [
  | inl e ↦ rw (e, push_block_at) h
  | inr (c, e) ↦
      rw (e, push_block_at)
        (set_child-IsWellFormed t n b cs p c _ h e (name-push_block_at ps id c)
          (push_block_at-IsWellFormed ps id c (find_child-IsWellFormed cs p c h.1 e)))
]
