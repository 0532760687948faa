-- ===== src/Ndfs/InodeTree/View/Steps.antt =====
-- The map of paths after one change of a directory's children.
use mini_hadoop.Common.{
  refl, [], false, ◌≡◌, sym, ap, ◌∙◌, List, ◌∷◌, Option, none, some, arith, if◌then◌else◌,
  Bool-cases, inl, inr,
}
use mini_hadoop.Common.Int.{ℤ}
use mini_hadoop.Common.Text.{Bytes, str_eq, str_eq_iff}
use mini_hadoop.Ndfs.InodeTree.{
  INode, directory, file, new_node, inode, Children, NodeType, name, find_child, push_child,
  set_child,
}
use mini_hadoop.Ndfs.InodeTree.Siblings.{find_child-push_child, find_child-set_child}
use mini_hadoop.Ndfs.InodeTree.View.{entry, is_prefix, view, view_child, view-cons}

module _ (t : NodeType) (n : Bytes) (b : List ℤ) (cs : Children) where
  pub view_found :
      (p : Bytes) (qs : List Bytes) (c : INode)
      → find_child cs p ≡ some c
      → view (inode t n b cs) (p ∷ qs) ≡ view c qs
  view_found p qs c e =
      view-cons (inode t n b cs) p qs ∙ ap (λ (o : Option INode). view_child o qs) e

  pub view_missing :
      (p : Bytes) (qs : List Bytes) → find_child cs p ≡ none → view (inode t n b cs) (p ∷ qs) ≡ none
  view_missing p qs e =
      view-cons (inode t n b cs) p qs ∙ ap (λ (o : Option INode). view_child o qs) e

module _ (t : NodeType) (n : Bytes) (b : List ℤ) (cs : Children) (p q : Bytes) (qs : List Bytes)
    (d : INode) (named : name d ≡ p) where
  find_child-pushed :
      find_child cs p ≡ none
      → find_child (push_child cs d) q ≡ (if str_eq p q then some d else find_child cs q)
  find_child-pushed e = ground (arith, find_child-push_child cs d q, str_eq_iff p q)

  pub view-push_child :
      find_child cs p ≡ none
      → view (inode t n b (push_child cs d)) (q ∷ qs)
        ≡ (if str_eq p q then view d qs else view (inode t n b cs) (q ∷ qs))
  view-push_child e = elim (Bool-cases (str_eq p q)) [
    | inl s ↦ rw s (view_found t n b (push_child cs d) q qs d (find_child-pushed e ∙ rw s))
    | inr s ↦ rw s (
        view-cons (inode t n b (push_child cs d)) q qs
        ∙ ap (λ (o : Option INode). view_child o qs) (find_child-pushed e ∙ rw s)
        ∙ sym (view-cons (inode t n b cs) q qs))
  ]

  pub view-set_child :
      (c : INode)
      → find_child cs p ≡ some c
      → view (inode t n b (set_child cs p d)) (q ∷ qs)
        ≡ (if str_eq p q then view d qs else view (inode t n b cs) (q ∷ qs))
  view-set_child c e =
      let found = find_child-set_child cs p q c d e named in
      elim (Bool-cases (str_eq p q)) [
        | inl s ↦ rw s (view_found t n b (set_child cs p d) q qs d (found ∙ rw s))
        | inr s ↦ rw s (
            view-cons (inode t n b (set_child cs p d)) q qs
            ∙ ap (λ (o : Option INode). view_child o qs) (found ∙ rw s)
            ∙ sym (view-cons (inode t n b cs) q qs))
      ]

-- Nothing lies below a new node.
pub view_new :
    (t : NodeType) (n : Bytes) (qs ps : List Bytes)
    → is_prefix qs ps ≡ false
    → view (new_node t n) qs ≡ none
unfolding view
view_new t n [] ps h = cc
view_new t n (q ∷ qs) ps h = unfold find_child in refl

pub entry_same :
    (t : NodeType) (n : Bytes) (b : List ℤ) (cs ds : Children)
    → entry (inode t n b ds) ≡ entry (inode t n b cs)
entry_same directory n b cs ds = refl
entry_same file n b cs ds = refl
