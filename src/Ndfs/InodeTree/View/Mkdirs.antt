-- ===== src/Ndfs/InodeTree/View/Mkdirs.antt =====
-- `Mkdirs` on the map of paths.
use mini_hadoop.Common.{
  ◌∙◌, true, false, ◌≡◌, refl, List, [], ◌∷◌, none, some, arith, if◌then◌else◌, Option-cases, inl,
  inr,
}
use mini_hadoop.Common.Int.{ℤ}
use mini_hadoop.Common.Text.{Bytes, str_eq_iff}
use mini_hadoop.Ndfs.InodeTree.{
  INode, inode, NodeType, Children, directory, file, name, new_node, is_directory, node_type,
  find_child, push_child, set_child, mkdirs_at,
}
use mini_hadoop.Ndfs.InodeTree.Siblings.{find_child-name, set_child_same}
use mini_hadoop.Ndfs.InodeTree.View.Steps.{
  view_new, view_found, view_missing, view-push_child, view-set_child,
}
use mini_hadoop.Ndfs.InodeTree.View.{directory_entry, view, is_prefix, name-mkdirs_at}

module _ (p : Bytes) (ps : List Bytes) (t : NodeType) (n : Bytes) (b : List ℤ) (cs : Children) where
  pub mkdirs_at_absent :
      find_child cs p ≡ none
      → mkdirs_at (p ∷ ps) (inode t n b cs) ≡ (
        inode t n b (push_child cs (mkdirs_at ps (new_node directory p)).0),
        (mkdirs_at ps (new_node directory p)).1,
      )
  unfolding mkdirs_at
  mkdirs_at_absent e = rw (e, mkdirs_at)

  pub mkdirs_at_present :
      (c : INode)
      → find_child cs p ≡ some c
      → mkdirs_at (p ∷ ps) (inode t n b cs) ≡ (
          if is_directory (node_type c)
          then (inode t n b (set_child cs p (mkdirs_at ps c).0), (mkdirs_at ps c).1)
          else (inode t n b cs, false))
  unfolding mkdirs_at
  mkdirs_at_present c e = rw (e, mkdirs_at)

-- A `Mkdirs` that succeeds makes a directory of every prefix of its path, and changes nothing else.
pub view-mkdirs_at :
    (ps qs : List Bytes) (cur : INode)
    → node_type cur ≡ directory
    → (mkdirs_at ps cur).1 ≡ true
    → view (mkdirs_at ps cur).0 qs ≡ (if is_prefix qs ps then some directory_entry else view cur qs)
view-mkdirs_at [] [] (inode directory n b cs) d h = unfold view mkdirs_at in refl
view-mkdirs_at [] [] (inode file n b cs) d h = cc
view-mkdirs_at [] (q ∷ qs) cur d h = unfold mkdirs_at in refl
view-mkdirs_at (p ∷ ps) [] (inode directory n b cs) d h = unfold view mkdirs_at in ground arith
view-mkdirs_at (p ∷ ps) [] (inode file n b cs) d h = cc
view-mkdirs_at (p ∷ ps) (q ∷ qs) (inode t n b cs) d h = elim (Option-cases (find_child cs p)) [
  | inl e ↦
      let d = (mkdirs_at ps (new_node directory p)).0 in
      ground (
        arith,
        mkdirs_at_absent p ps t n b cs e,
        view-push_child t n b cs p q qs d (name-mkdirs_at ps (new_node directory p)) e,
        view-mkdirs_at ps qs (new_node directory p),
        str_eq_iff p q,
        view_missing t n b cs p qs e,
        view_new directory p qs ps,
      )
  | inr (c, e) ↦
      let named : name (mkdirs_at ps c).0 ≡ p = name-mkdirs_at ps c ∙ find_child-name cs p c e in
      ground (
        arith,
        mkdirs_at_present p ps t n b cs c e,
        view-set_child t n b cs p q qs (mkdirs_at ps c).0 named c e,
        view-mkdirs_at ps qs c,
        str_eq_iff p q,
        view_found t n b cs p qs c e,
      )
]

mkdirs_at-new : (ps : List Bytes) (n : Bytes) → (mkdirs_at ps (new_node directory n)).1 ≡ true
unfolding mkdirs_at
mkdirs_at-new [] n = refl
mkdirs_at-new (p ∷ ps) n = mkdirs_at-new ps p

-- A `Mkdirs` that fails leaves the tree as it was.
pub mkdirs_at_failed :
    (ps : List Bytes) (cur : INode) → (mkdirs_at ps cur).1 ≡ false → (mkdirs_at ps cur).0 ≡ cur
unfolding mkdirs_at
mkdirs_at_failed [] cur h = refl
mkdirs_at_failed (p ∷ ps) (inode t n b cs) h = elim (Option-cases (find_child cs p)) [
  | inl e ↦ ground (arith, e, mkdirs_at-new ps p)
  | inr (c, e) ↦ ground (arith, e, mkdirs_at_failed ps c, set_child_same cs p c e)
]
