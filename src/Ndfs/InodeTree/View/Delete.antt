-- ===== src/Ndfs/InodeTree/View/Delete.antt =====
-- `Delete` on the map of paths.
use mini_hadoop.Common.{
  ◌↔◌, refl, true, false, ◌≡◌, ap, ◌∙◌, List, [], ◌∷◌, Option, none, some, arith, if◌then◌else◌,
  Option-cases, Bool-cases, inl, inr,
}
use mini_hadoop.Common.Int.{ℤ}
use mini_hadoop.Common.Text.{Bytes, str_eq, str_eq_iff}
use mini_hadoop.Ndfs.InodeTree.{
  nil, cons, INode, inode, NodeType, Children, name, find_child, remove_child, set_child, delete_at,
}
use mini_hadoop.Ndfs.InodeTree.Siblings.{set_child_same, find_child-name}
use mini_hadoop.Ndfs.InodeTree.View.Steps.{view_found, view_missing, view-set_child, entry_same}
use mini_hadoop.Ndfs.InodeTree.View.{
  view, view-nil, view-cons, view_child, is_prefix, name-delete_at,
}
use mini_hadoop.Ndfs.InodeTree.WellFormed.{
  IsWellFormed, find_child-IsWellFormed, find_child-remove_child,
}

module _ (p : Bytes) (t : NodeType) (n : Bytes) (b : List ℤ) (cs : Children) where
  pub delete_here :
      (ds : Children)
      → remove_child cs p ≡ some ds
      → delete_at (p ∷ []) (inode t n b cs) ≡ (inode t n b ds, true)
  unfolding delete_at
  delete_here ds e = rw (e, delete_at)

  pub delete_missing :
      remove_child cs p ≡ none → delete_at (p ∷ []) (inode t n b cs) ≡ (inode t n b cs, false)
  unfolding delete_at
  delete_missing e = rw (e, delete_at)

  module _ (q : Bytes) (ps : List Bytes) where
    pub delete_no_parent :
        find_child cs p ≡ none → delete_at (p ∷ q ∷ ps) (inode t n b cs) ≡ (inode t n b cs, false)
    unfolding delete_at
    delete_no_parent e = rw (e, delete_at)

    pub delete_below :
        (c : INode)
        → find_child cs p ≡ some c
        → delete_at (p ∷ q ∷ ps) (inode t n b cs)
          ≡ (inode t n b (set_child cs p (delete_at (q ∷ ps) c).0), (delete_at (q ∷ ps) c).1)
    unfolding delete_at
    delete_below c e = rw (e, delete_at)

-- A `Delete` that succeeds removes its path and all below it, and changes nothing else.
pub view-delete_at :
    (ps qs : List Bytes) (cur : INode)
    → IsWellFormed cur
    → (delete_at ps cur).1 ≡ true
    → view (delete_at ps cur).0 qs ≡ (if is_prefix ps qs then none else view cur qs)
view-delete_at [] qs cur wf h = absurd (unfold delete_at in cc)
view-delete_at (p ∷ []) [] (inode t n b cs) wf h = elim (Option-cases (remove_child cs p)) [
  | inl e ↦ ground (arith, delete_missing p t n b cs e)
  | inr (ds, e) ↦ ground (
    arith,
    delete_here p t n b cs ds e,
    view-nil (inode t n b cs),
    view-nil (inode t n b ds),
    entry_same t n b cs ds,
  )
]
view-delete_at (p ∷ []) (q ∷ qs) (inode t n b cs) wf h = elim (Option-cases (remove_child cs p)) [
  | inl e ↦ ground (arith, delete_missing p t n b cs e)
  | inr (ds, e) ↦
      let found = find_child-remove_child cs ds p q wf.1 e in
      elim (Bool-cases (str_eq q p)) [
        | inl s ↦
            rw (delete_here p t n b cs ds e, s)
              (view_missing t n b ds q qs (ground (arith, found, str_eq_iff p q, str_eq_iff q p)))
        | inr s ↦
            rw
              (
                delete_here p t n b cs ds e,
                s,
                view-cons (inode t n b ds) q qs,
                view-cons (inode t n b cs) q qs,
              )
              (ap (λ (o : Option INode). view_child o qs)
                (ground (arith, found, str_eq_iff p q, str_eq_iff q p)))
      ]
]
view-delete_at (p ∷ r ∷ ps) [] (inode t n b cs) wf h = elim (Option-cases (find_child cs p)) [
  | inl e ↦ ground (arith, delete_no_parent p t n b cs r ps e)
  | inr (c, e) ↦
      let ds = set_child cs p (delete_at (r ∷ ps) c).0 in
      ground (
        arith,
        delete_below p t n b cs r ps c e,
        view-nil (inode t n b cs),
        view-nil (inode t n b ds),
        entry_same t n b cs ds,
      )
]
view-delete_at (p ∷ r ∷ ps) (q ∷ qs) (inode t n b cs) wf h = elim (Option-cases (find_child cs p)) [
  | inl e ↦ ground (arith, delete_no_parent p t n b cs r ps e)
  | inr (c, e) ↦
      let d = (delete_at (r ∷ ps) c).0 in
      let named : name d ≡ p = name-delete_at (r ∷ ps) c ∙ find_child-name cs p c e in
      ground (
        arith,
        delete_below p t n b cs r ps c e,
        view-set_child t n b cs p q qs d named c e,
        view-delete_at (r ∷ ps) qs c (find_child-IsWellFormed cs p c wf.1 e),
        str_eq_iff p q,
        str_eq_iff q p,
        view_found t n b cs p qs c e,
      )
]

-- A `Delete` that fails leaves the tree as it was.
pub delete_at_failed :
    (ps : List Bytes) (cur : INode) → (delete_at ps cur).1 ≡ false → (delete_at ps cur).0 ≡ cur
delete_at_failed [] cur h = unfold delete_at in refl
delete_at_failed (p ∷ []) (inode t n b cs) h = elim (Option-cases (remove_child cs p)) [
  | inl e ↦ ground (arith, delete_missing p t n b cs e)
  | inr (ds, e) ↦ ground (arith, delete_here p t n b cs ds e)
]
delete_at_failed (p ∷ q ∷ ps) (inode t n b cs) h = elim (Option-cases (find_child cs p)) [
  | inl e ↦ ground (arith, delete_no_parent p t n b cs q ps e)
  | inr (c, e) ↦ ground (
    arith,
    delete_below p t n b cs q ps c e,
    delete_at_failed (q ∷ ps) c,
    set_child_same cs p c e,
  )
]

remove_none_iff :
    (cs : Children) (p : Bytes) → (remove_child cs p ≡ none) ↔ (find_child cs p ≡ none)
unfolding remove_child find_child
remove_none_iff nil p = (λ e. refl, λ e. refl)
remove_none_iff (cons x cs) p = ground (arith, remove_none_iff cs p)

-- A `Delete` of a path that is not the root fails exactly when nothing is there.
pub delete_at_found :
    (p : Bytes) (ps : List Bytes) (cur : INode)
    → ((delete_at (p ∷ ps) cur).1 ≡ false) ↔ (view cur (p ∷ ps) ≡ none)
delete_at_found p [] (inode t n b cs) = elim (Option-cases (remove_child cs p)) [
  | inl e ↦
      ground (
        arith,
        delete_missing p t n b cs e,
        view_missing t n b cs p [] ((remove_none_iff cs p).0 e),
      )
  | inr (ds, e) ↦ elim (Option-cases (find_child cs p)) [
    | inl k ↦ absurd (ground (arith, remove_none_iff cs p))
    | inr (c, k) ↦
        ground (arith, delete_here p t n b cs ds e, view_found t n b cs p [] c k, view-nil c)
  ]
]
delete_at_found p (q ∷ ps) (inode t n b cs) = elim (Option-cases (find_child cs p)) [
  | inl e ↦ ground (arith, delete_no_parent p t n b cs q ps e, view_missing t n b cs p (q ∷ ps) e)
  | inr (c, e) ↦ ground (
    arith,
    delete_below p t n b cs q ps c e,
    view_found t n b cs p (q ∷ ps) c e,
    delete_at_found q ps c,
  )
]
