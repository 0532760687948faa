-- ===== src/Ndfs/InodeTree/View/PushBlock.antt =====
-- The append of a block id to a file, on the map of paths.
use mathlib.Core.Option
use mini_hadoop.Common.{
  ◌≡◌, refl, ap, ◌∙◌, List, [], ◌∷◌, ◌++◌, none, some, arith, if◌then◌else◌, Option-cases,
  Bool-cases, inl, inr,
}
use mini_hadoop.Common.Int.{ℤ}
use mini_hadoop.Common.Text.{Bytes, str_eq, str_eq_iff}
use mini_hadoop.Ndfs.InodeTree.{
  INode, inode, NodeType, Children, directory, file, name, find_child, set_child, push_block_at,
}
use mini_hadoop.Ndfs.InodeTree.Siblings.{find_child-name}
use mini_hadoop.Ndfs.InodeTree.View.Steps.{view_found, view_missing, view-set_child, entry_same}
use mini_hadoop.Ndfs.InodeTree.View.{
  Entry, directory_entry, file_entry, view, view-nil, path_eq, name-push_block_at,
}

abbrev pub add_block : ℤ → Entry → Entry
add_block id directory_entry = directory_entry
add_block id (file_entry bs) = file_entry (bs ++ (id ∷ []))

module _ (p : Bytes) (ps : List Bytes) (id : ℤ) (t : NodeType) (n : Bytes) (b : List ℤ)
    (cs : Children) where
  push_absent : find_child cs p ≡ none → push_block_at (p ∷ ps) id (inode t n b cs) ≡ inode t n b cs
  unfolding push_block_at
  push_absent e = rw (e, push_block_at)

  push_below :
      (c : INode)
      → find_child cs p ≡ some c
      → push_block_at (p ∷ ps) id (inode t n b cs)
        ≡ inode t n b (set_child cs p (push_block_at ps id c))
  unfolding push_block_at
  push_below c e = rw (e, push_block_at)

-- The id goes to the end of the blocks of the file at the path; nothing else changes.
pub view-push_block_at :
    (ps qs : List Bytes) (id : ℤ) (cur : INode)
    → view (push_block_at ps id cur) qs
      ≡ (if path_eq qs ps then Option.map (add_block id) (view cur qs) else view cur qs)
view-push_block_at [] [] id (inode directory n b cs) = unfold push_block_at view in refl
view-push_block_at [] [] id (inode file n b cs) = unfold push_block_at view in refl
view-push_block_at [] (q ∷ qs) id (inode t n b cs) = unfold push_block_at view in refl
view-push_block_at (p ∷ ps) [] id (inode t n b cs) = elim (Option-cases (find_child cs p)) [
  | inl e ↦ rw (push_absent p ps id t n b cs e)
  | inr (c, e) ↦
      let ds = set_child cs p (push_block_at ps id c) in
      rw (push_below p ps id t n b cs c e, view-nil (inode t n b ds), view-nil (inode t n b cs))
        (ap some (entry_same t n b cs ds))
]
view-push_block_at (p ∷ ps) (q ∷ qs) id (inode t n b cs) = elim (Option-cases (find_child cs p)) [
  | inl e ↦ rw (push_absent p ps id t n b cs e) (elim (Bool-cases (str_eq p q)) [
    | inl s ↦ ground (arith, str_eq_iff p q, view_missing t n b cs p qs e)
    | inr s ↦ rw s
  ])
  | inr (c, e) ↦
      let d = push_block_at ps id c in
      let named : name d ≡ p = name-push_block_at ps id c ∙ find_child-name cs p c e in
      rw
        (
          push_below p ps id t n b cs c e,
          view-set_child t n b cs p q qs d named c e,
          view-push_block_at ps qs id c,
        )
        (elim (Bool-cases (str_eq p q)) [
          | inl s ↦ ground (arith, str_eq_iff p q, view_found t n b cs p qs c e)
          | inr s ↦ rw s
        ])
]
