-- ===== src/Ndfs/InodeTree/Siblings.antt =====
-- One directory: what `FindChild` finds after each change of the children.
use mini_hadoop.Common.{◌≡◌, refl, none, some, if◌then◌else◌, arith}
use mini_hadoop.Common.Text.{Bytes, str_eq, str_eq_iff}
use mini_hadoop.Ndfs.InodeTree.{INode, Children, nil, cons, name, find_child, push_child, set_child}

pub find_child-name :
    (cs : Children) (n : Bytes) (c : INode) → find_child cs n ≡ some c → name c ≡ n
unfolding find_child
find_child-name nil n c h = cc
find_child-name (cons d cs) n c h = ground (arith, str_eq_iff (name d) n, find_child-name cs n c)

pub find_child-push_child :
    (cs : Children) (d : INode) (n : Bytes)
    → find_child (push_child cs d) n ≡ elim (find_child cs n) [
      | some c ↦ some c
      | none ↦ if str_eq (name d) n then some d else none
    ]
unfolding find_child push_child
find_child-push_child nil d n = refl
find_child-push_child (cons c cs) d n = ground (arith, find_child-push_child cs d n)

pub find_child-set_child :
    (cs : Children) (p q : Bytes) (c d : INode)
    → find_child cs p ≡ some c
    → name d ≡ p
    → find_child (set_child cs p d) q ≡ (if str_eq p q then some d else find_child cs q)
unfolding find_child set_child
find_child-set_child nil p q c d h e = cc
find_child-set_child (cons x cs) p q c d h e = ground (
  arith,
  str_eq_iff (name x) p,
  str_eq_iff (name x) q,
  str_eq_iff (name d) q,
  str_eq_iff p q,
  find_child-set_child cs p q c d,
)

pub set_child_same :
    (cs : Children) (p : Bytes) (c : INode) → find_child cs p ≡ some c → set_child cs p c ≡ cs
unfolding find_child set_child
set_child_same nil p c h = refl
set_child_same (cons x cs) p c h = ground (arith, set_child_same cs p c)
