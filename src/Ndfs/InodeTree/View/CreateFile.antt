-- ===== src/Ndfs/InodeTree/View/CreateFile.antt =====
-- `CreateFile` on the map of paths.
use mini_hadoop.Common.{
  true, false, ◌≡◌, refl, ◌∙◌, List, [], ◌∷◌, none, some, arith, if◌then◌else◌, Option-cases, inl,
  inr,
}
use mini_hadoop.Common.Int.{ℤ}
use mini_hadoop.Common.Text.{Bytes, str_eq_iff}
use mini_hadoop.Ndfs.InodeTree.{
  INode, inode, NodeType, Children, file, name, new_node, is_directory, node_type, find_child,
  push_child, set_child, create_file_at,
}
use mini_hadoop.Ndfs.InodeTree.Siblings.{set_child_same, find_child-name}
use mini_hadoop.Ndfs.InodeTree.View.Steps.{
  entry_same, view_new, view_found, view_missing, view-push_child, view-set_child,
}
use mini_hadoop.Ndfs.InodeTree.View.{file_entry, view, view-nil, path_eq, name-create_file_at}

module _ (p : Bytes) (t : NodeType) (n : Bytes) (b : List ℤ) (cs : Children) where
  pub create_here :
      find_child cs p ≡ none
      → create_file_at (p ∷ []) (inode t n b cs)
        ≡ (inode t n b (push_child cs (new_node file p)), true)
  unfolding create_file_at
  create_here e = rw (e, create_file_at)

  pub create_exists :
      (c : INode)
      → find_child cs p ≡ some c
      → create_file_at (p ∷ []) (inode t n b cs) ≡ (inode t n b cs, false)
  unfolding create_file_at
  create_exists c e = rw (e, create_file_at)

  module _ (q : Bytes) (ps : List Bytes) where
    pub create_no_parent :
        find_child cs p ≡ none
        → create_file_at (p ∷ q ∷ ps) (inode t n b cs) ≡ (inode t n b cs, false)
    unfolding create_file_at
    create_no_parent e = rw (e, create_file_at)

    pub create_below :
        (c : INode)
        → find_child cs p ≡ some c
        → create_file_at (p ∷ q ∷ ps) (inode t n b cs) ≡ (
            if is_directory (node_type c)
            then (
              inode t n b (set_child cs p (create_file_at (q ∷ ps) c).0),
              (create_file_at (q ∷ ps) c).1,
            )
            else (inode t n b cs, false))
    unfolding create_file_at
    create_below c e = rw (e, create_file_at)

view_new_file :
    (p : Bytes) (qs : List Bytes)
    → view (new_node file p) qs ≡ (if path_eq qs [] then some (file_entry []) else none)
unfolding view
view_new_file p [] = refl
view_new_file p (q ∷ qs) = view_new file p (q ∷ qs) [] refl

-- A `CreateFile` that succeeds adds an empty file at its path, where there was nothing, and changes
-- nothing else.
pub view-create_file_at :
    (ps qs : List Bytes) (cur : INode)
    → (create_file_at ps cur).1 ≡ true
    → (view cur ps ≡ none)
      × (view (create_file_at ps cur).0 qs
          ≡ (if path_eq qs ps then some (file_entry []) else view cur qs))
view-create_file_at [] qs cur h = absurd (unfold create_file_at in cc)
view-create_file_at (p ∷ []) [] (inode t n b cs) h = elim (Option-cases (find_child cs p)) [
  | inl e ↦ ground (
    arith,
    create_here p t n b cs e,
    view-nil (inode t n b cs),
    view-nil (inode t n b (push_child cs (new_node file p))),
    view_missing t n b cs p [] e,
    entry_same t n b cs (push_child cs (new_node file p)),
  )
  | inr (c, e) ↦ ground (arith, create_exists p t n b cs c e)
]
view-create_file_at (p ∷ []) (q ∷ qs) (inode t n b cs) h = elim (Option-cases (find_child cs p)) [
  | inl e ↦ ground (
    arith,
    create_here p t n b cs e,
    view-push_child t n b cs p q qs (new_node file p) refl e,
    view_new_file p qs,
    str_eq_iff p q,
    view_missing t n b cs p qs e,
    view_missing t n b cs p [] e,
  )
  | inr (c, e) ↦ ground (arith, create_exists p t n b cs c e)
]
view-create_file_at (p ∷ r ∷ ps) [] (inode t n b cs) h = elim (Option-cases (find_child cs p)) [
  | inl e ↦ ground (arith, create_no_parent p t n b cs r ps e)
  | inr (c, e) ↦
      let ds = set_child cs p (create_file_at (r ∷ ps) c).0 in
      ground (
        arith,
        create_below p t n b cs r ps c e,
        view-nil (inode t n b cs),
        view-nil (inode t n b ds),
        view-create_file_at (r ∷ ps) [] c,
        view_found t n b cs p (r ∷ ps) c e,
        entry_same t n b cs ds,
      )
]
view-create_file_at (p ∷ r ∷ ps) (q ∷ qs) (inode t n b cs) h =
    elim (Option-cases (find_child cs p)) [
      | inl e ↦ ground (arith, create_no_parent p t n b cs r ps e)
      | inr (c, e) ↦
          let d = (create_file_at (r ∷ ps) c).0 in
          let named : name d ≡ p = name-create_file_at (r ∷ ps) c ∙ find_child-name cs p c e in
          ground (
            arith,
            create_below p t n b cs r ps c e,
            view-set_child t n b cs p q qs d named c e,
            view-create_file_at (r ∷ ps) qs c,
            str_eq_iff p q,
            view_found t n b cs p qs c e,
            view_found t n b cs p (r ∷ ps) c e,
          )
    ]

-- A `CreateFile` that fails leaves the tree as it was.
pub create_file_at_failed :
    (ps : List Bytes) (cur : INode)
    → (create_file_at ps cur).1 ≡ false
    → (create_file_at ps cur).0 ≡ cur
create_file_at_failed [] cur h = unfold create_file_at in refl
create_file_at_failed (p ∷ []) (inode t n b cs) h = elim (Option-cases (find_child cs p)) [
  | inl e ↦ ground (arith, create_here p t n b cs e)
  | inr (c, e) ↦ ground (arith, create_exists p t n b cs c e)
]
create_file_at_failed (p ∷ q ∷ ps) (inode t n b cs) h = elim (Option-cases (find_child cs p)) [
  | inl e ↦ ground (arith, create_no_parent p t n b cs q ps e)
  | inr (c, e) ↦ ground (
    arith,
    create_below p t n b cs q ps c e,
    create_file_at_failed (q ∷ ps) c,
    set_child_same cs p c e,
  )
]
