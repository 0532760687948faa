-- ===== src/Ndfs/InodeTree/WellFormed.antt =====
-- The invariant of the tree: names are unique in each directory, and a file has no children.
pub mod Operations
use mini_hadoop.Common.{
  subst, Bool, true, false, ◌≡◌, refl, sym, ap, ◌∙◌, List, [], ◌∷◌, Option, none, some, arith,
  if◌then◌else◌, Option-cases, Bool-cases, inl, inr,
}
use mini_hadoop.Common.Int.{ℤ}
use mini_hadoop.Common.Text.{Bytes, str_eq, str_eq_iff, str_eq_refl, str_eq→eq}
use mini_hadoop.Ndfs.InodeTree.{
  INode, inode, NodeType, Children, nil, cons, directory, file, name, new_node, is_directory,
  node_type, find_child, push_child, set_child, remove_child, create_file_at, mkdirs_at, delete_at,
  push_block_at,
}
use mini_hadoop.Ndfs.InodeTree.Siblings.{
  find_child-name, find_child-push_child, find_child-set_child,
}

-- `none` is what `FindChild` answers for a name that is free.
abbrev pub NoChildren : NodeType → Children → Type 0
NoChildren file (cons c cs) = ⊥
NoChildren _ _ = Unit

abbrev mutual
  pub IsWellFormed : INode → Type 0
  IsWellFormed (inode t n b cs) = NoChildren t cs × AllDistinct cs

  pub AllDistinct : Children → Type 0
  AllDistinct nil = Unit
  AllDistinct (cons c cs) = IsWellFormed c × (find_child cs (name c) ≡ none) × AllDistinct cs

pub find_child-IsWellFormed :
    (cs : Children) (p : Bytes) (c : INode)
    → AllDistinct cs
    → find_child cs p ≡ some c
    → IsWellFormed c
unfolding find_child
find_child-IsWellFormed nil p c h e = cc
find_child-IsWellFormed (cons x cs) p c (hx, fresh, h) e = elim (Bool-cases (str_eq (name x) p)) [
  | inl s ↦ let same : x ≡ c = ground arith in subst IsWellFormed same hx
  | inr s ↦ find_child-IsWellFormed cs p c h (ground arith)
]

push_child-AllDistinct :
    (cs : Children) (d : INode)
    → AllDistinct cs
    → find_child cs (name d) ≡ none
    → IsWellFormed d
    → AllDistinct (push_child cs d)
unfolding find_child push_child
push_child-AllDistinct nil d h e hd = (hd, refl, tt)
push_child-AllDistinct (cons x cs) d (hx, fresh, h) e hd = (
  hx,
  ground (
    arith,
    find_child-push_child cs d (name x),
    str_eq_iff (name x) (name d),
    str_eq_iff (name d) (name x),
  ),
  push_child-AllDistinct cs d h (ground arith) hd,
)

set_child-AllDistinct :
    (cs : Children) (p : Bytes) (c d : INode)
    → AllDistinct cs
    → find_child cs p ≡ some c
    → name d ≡ p
    → IsWellFormed d
    → AllDistinct (set_child cs p d)
unfolding set_child
set_child-AllDistinct nil p c d h e named hd = tt
set_child-AllDistinct (cons x cs) p c d (hx, fresh, h) e named hd =
    elim (Bool-cases (str_eq (name x) p)) [
      | inl s ↦
          let same : name x ≡ name d = ground (arith, str_eq_iff (name x) p) in
          rw s (hd, subst (λ (n : Bytes). find_child cs n ≡ none) same fresh, h)
      | inr s ↦
          let below : find_child cs p ≡ some c = unfold find_child in ground arith in
          rw s (
            hx,
            ground (
              arith,
              find_child-set_child cs p (name x) c d below named,
              str_eq_iff p (name x),
              str_eq_iff (name x) p,
            ),
            set_child-AllDistinct cs p c d h below named hd,
          )
    ]

remove_here :
    (x : INode) (cs : Children) (p : Bytes)
    → str_eq (name x) p ≡ true
    → remove_child (cons x cs) p ≡ some cs
unfolding remove_child
remove_here x cs p s = rw s

remove_later :
    (x : INode) (cs ds : Children) (p : Bytes)
    → str_eq (name x) p ≡ false
    → remove_child (cons x cs) p ≡ some ds
    → (es : Children) × (remove_child cs p ≡ some es) × (ds ≡ cons x es)
unfolding remove_child
remove_later x cs ds p s e = elim (Option-cases (remove_child cs p)) [
  | inl k ↦ absurd (ground arith)
  | inr (es, k) ↦ (es, k, ground arith)
]

-- Without the child, its name is free and the other names are as they were.
pub find_child-remove_child :
    (cs ds : Children) (p q : Bytes)
    → AllDistinct cs
    → remove_child cs p ≡ some ds
    → find_child ds q ≡ (if str_eq p q then none else find_child cs q)
unfolding find_child
find_child-remove_child nil ds p q h e = unfold remove_child in cc
find_child-remove_child (cons x cs) ds p q (hx, fresh, h) e =
    elim (Bool-cases (str_eq (name x) p)) [
      | inl s ↦ ground (
        arith,
        remove_here x cs p s,
        str_eq_iff (name x) p,
        str_eq_iff p q,
        str_eq_iff (name x) q,
      )
      | inr s ↦
          let (es, k, same) = remove_later x cs ds p s e in
          ground (
            arith,
            find_child-remove_child cs es p q h k,
            str_eq_iff (name x) p,
            str_eq_iff p q,
            str_eq_iff (name x) q,
          )
    ]

remove_child-AllDistinct :
    (cs ds : Children) (p : Bytes) → AllDistinct cs → remove_child cs p ≡ some ds → AllDistinct ds
remove_child-AllDistinct nil ds p h e = unfold remove_child in cc
remove_child-AllDistinct (cons x cs) ds p (hx, fresh, h) e = elim (Bool-cases (str_eq (name x) p)) [
  | inl s ↦ let same : cs ≡ ds = ground (arith, remove_here x cs p s) in subst AllDistinct same h
  | inr s ↦
      let (es, k, same) = remove_later x cs ds p s e in
      rw same (
        hx,
        ground (arith, find_child-remove_child cs es p (name x) h k),
        remove_child-AllDistinct cs es p h k,
      )
]
