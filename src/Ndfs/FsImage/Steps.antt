-- ===== src/Ndfs/FsImage/Steps.antt =====
-- The lines of an image as operations on a tree, and the tree that they build.
use mini_hadoop.Common.{
  true, ◌≡◌, refl, sym, ap, ◌∙◌, List, [], ◌∷◌, ◌++◌, append_assoc, append-nil, map, none, some,
  arith,
}
use mini_hadoop.Common.Int.{ℤ}
use mini_hadoop.Common.Text.{Bytes, str_eq_refl, str_eq_iff}
use mini_hadoop.Ndfs.InodeTree.{
  INode, inode, Children, nil, cons, NodeType, directory, file, name, new_node, find_child,
  set_child, push_child, mkdirs_at, create_file_at, push_block_at,
}
use mini_hadoop.Ndfs.InodeTree.Siblings.{find_child-push_child, set_child_same}
use mini_hadoop.Ndfs.InodeTree.View.{name-mkdirs_at, node_type-mkdirs_at}
use mini_hadoop.Ndfs.InodeTree.WellFormed.{AllDistinct}
use mini_hadoop.Ndfs.FsImage.Operations.{
  graft, Keeps, Lifts, Lifts-compose, Keeps-compose, add_directory, add_directory-Lifts,
  push_blocks, push_blocks-Lifts, fill, fill_file, fill_file-Keeps, fill_file-Lifts,
}

-- A line, its path split. A file has the path of its directory, its name and its blocks.
pub data Step : Type 0 where
  make_directory : List Bytes → Step
  make_file : List Bytes → Bytes → List ℤ → Step

abbrev pub apply : Step → INode → INode
apply (make_directory path) = add_directory path
apply (make_file parent n ids) =
    λ cur. fill_file (parent ++ (n ∷ [])) ids (add_directory parent cur)

abbrev pub under : Bytes → Step → Step
under p (make_directory path) = make_directory (p ∷ path)
under p (make_file parent n ids) = make_file (p ∷ parent) n ids

abbrev pub run : List Step → INode → INode
run [] cur = cur
run (s ∷ ss) cur = run ss (apply s cur)

-- The lines of the children of a node, by paths from there.
abbrev pub steps : Children → List Step
steps nil = []
steps (cons (inode directory n b ds) cs) =
    make_directory (n ∷ []) ∷ (map (under n) (steps ds) ++ steps cs)
steps (cons (inode file n b ds) cs) = make_file [] n b ∷ steps cs

add_directory-Keeps : (ps : List Bytes) → Keeps (add_directory ps)
add_directory-Keeps ps c = (name-mkdirs_at ps c, node_type-mkdirs_at ps c)

apply-Keeps : (s : Step) → Keeps (apply s)
apply-Keeps (make_directory path) = add_directory-Keeps path
apply-Keeps (make_file parent n ids) =
    Keeps-compose (add_directory parent) (fill_file (parent ++ (n ∷ [])) ids)
      (add_directory-Keeps parent) (fill_file-Keeps (parent ++ (n ∷ [])) ids)

fill_in-Lifts :
    (p : Bytes) (parent : List Bytes) (n : Bytes) (ids : List ℤ)
    → Lifts directory p
        (fill_file (parent ++ (n ∷ [])) ids)
        (fill_file (p ∷ (parent ++ (n ∷ []))) ids)
fill_in-Lifts p [] n ids = fill_file-Lifts p n [] ids
fill_in-Lifts p (q ∷ ps) n ids = fill_file-Lifts p q (ps ++ (n ∷ [])) ids

apply-Lifts : (p : Bytes) (s : Step) → Lifts directory p (apply s) (apply (under p s))
apply-Lifts p (make_directory path) = add_directory-Lifts p path
apply-Lifts p (make_file parent n ids) =
    Lifts-compose directory p (add_directory parent) (add_directory (p ∷ parent))
      (fill_file (parent ++ (n ∷ [])) ids) (fill_file (p ∷ (parent ++ (n ∷ []))) ids)
      (add_directory-Lifts p parent) (add_directory-Keeps parent) (fill_in-Lifts p parent n ids)

run-Lifts : (p : Bytes) (ss : List Step) → Lifts directory p (run ss) (run (map (under p) ss))
run-Lifts p [] (inode t n b cs) child e h = ap (inode t n b) (sym (set_child_same cs p child e))
run-Lifts p (s ∷ ss) cur child e h =
    Lifts-compose directory p (apply s) (apply (under p s)) (run ss) (run (map (under p) ss))
      (apply-Lifts p s) (apply-Keeps s) (run-Lifts p ss) cur child e h

pub run-append : (ss ts : List Step) (cur : INode) → run (ss ++ ts) cur ≡ run ts (run ss cur)
run-append [] ts cur = refl
run-append (s ∷ ss) ts cur = run-append ss ts (apply s cur)

-- The children of the one behind those of the other.
abbrev pub push_children : Children → Children → Children
push_children ds nil = ds
push_children ds (cons c cs) = push_children (push_child ds c) cs

push_children-cons :
    (x : INode) (ds cs : Children) → push_children (cons x ds) cs ≡ cons x (push_children ds cs)
unfolding push_child
push_children-cons x ds nil = refl
push_children-cons x ds (cons c cs) = push_children-cons x (push_child ds c) cs

pub push_children-nil : (cs : Children) → push_children nil cs ≡ cs
unfolding push_child
push_children-nil nil = refl
push_children-nil (cons c cs) = push_children-cons c nil cs ∙ ap (cons c) (push_children-nil cs)

-- No name of the one list is in the other.
abbrev pub Apart : Children → Children → Type 0
Apart ds nil = Unit
Apart ds (cons c cs) = (find_child ds (name c) ≡ none) × Apart ds cs

pub Apart-nil : (cs : Children) → Apart nil cs
unfolding find_child
Apart-nil nil = tt
Apart-nil (cons c cs) = (refl, Apart-nil cs)

Apart-push_child :
    (ds cs : Children) (d : INode)
    → Apart ds cs
    → find_child cs (name d) ≡ none
    → Apart (push_child ds d) cs
unfolding find_child
Apart-push_child ds nil d h e = tt
Apart-push_child ds (cons c cs) d (hc, h) e = (
  ground (
    arith,
    find_child-push_child ds d (name c),
    str_eq_iff (name c) (name d),
    str_eq_iff (name d) (name c),
  ),
  Apart-push_child ds cs d h (ground arith),
)

set_child-push_child :
    (ds : Children) (c d : INode)
    → find_child ds (name c) ≡ none
    → set_child (push_child ds c) (name c) d ≡ push_child ds d
unfolding set_child push_child find_child
set_child-push_child nil c d e = ground (arith, str_eq_refl (name c))
set_child-push_child (cons x ds) c d e = ground (arith, set_child-push_child ds c d)

find_child_pushed :
    (ds : Children) (d : INode)
    → find_child ds (name d) ≡ none
    → find_child (push_child ds d) (name d) ≡ some d
find_child_pushed ds d e = ground (arith, find_child-push_child ds d (name d), str_eq_refl (name d))

make_directory_lem :
    (m n : Bytes) (b : List ℤ) (ds : Children)
    → find_child ds n ≡ none
    → apply (make_directory (n ∷ [])) (inode directory m b ds)
      ≡ inode directory m b (push_child ds (new_node directory n))
unfolding mkdirs_at
make_directory_lem m n b ds e = ground arith

push_blocks_here :
    (t : NodeType) (n : Bytes) (b ids : List ℤ) (cs : Children)
    → push_blocks [] ids (inode t n b cs) ≡ inode t n (b ++ ids) cs
unfolding push_block_at
push_blocks_here t n b [] cs = ap (λ (x : List ℤ). inode t n x cs) (sym (append-nil b))
push_blocks_here t n b (id ∷ ids) cs =
    push_blocks_here t n (b ++ (id ∷ [])) ids cs
    ∙ ap (λ (x : List ℤ). inode t n x cs) (append_assoc b (id ∷ []) ids)

made_file :
    (m n : Bytes) (b : List ℤ) (ds : Children)
    → find_child ds n ≡ none
    → create_file_at (n ∷ []) (inode directory m b ds)
      ≡ (inode directory m b (push_child ds (new_node file n)), true)
unfolding create_file_at
made_file m n b ds e = ground arith

make_file_lem :
    (m n : Bytes) (b ids : List ℤ) (ds : Children)
    → find_child ds n ≡ none
    → apply (make_file [] n ids) (inode directory m b ds)
      ≡ inode directory m b (push_child ds (inode file n ids nil))
make_file_lem m n b ids ds e =
    unfold mkdirs_at in
    (ap (fill (n ∷ []) ids) (made_file m n b ds e)
      ∙ push_blocks-Lifts file n [] ids (inode directory m b (push_child ds (new_node file n)))
          (new_node file n) (find_child_pushed ds (new_node file n) e) refl
      ∙ ap (graft (inode directory m b (push_child ds (new_node file n))) n)
          (push_blocks_here file n [] ids nil)
      ∙ ap (inode directory m b)
          (set_child-push_child ds (new_node file n) (inode file n ids nil) e))

-- What the image keeps of a node: a directory has no blocks.
abbrev mutual
  pub IsPlainNode : INode → Type 0
  IsPlainNode (inode directory n b cs) = (b ≡ []) × AllPlain cs
  IsPlainNode (inode file n b cs) = Unit

  pub AllPlain : Children → Type 0
  AllPlain nil = Unit
  AllPlain (cons c cs) = IsPlainNode c × AllPlain cs

-- The operations of the lines append the children to a directory with other names.
pub run-steps :
    (cs ds : Children) (m : Bytes) (b : List ℤ)
    → AllDistinct cs
    → AllPlain cs
    → Apart ds cs
    → run (steps cs) (inode directory m b ds) ≡ inode directory m b (push_children ds cs)
run-steps nil ds m b h k a = refl
run-steps (cons (inode file n ids nil) cs) ds m b (_, fresh, h) (_, k) (new, a) =
    ap (run (steps cs)) (make_file_lem m n b ids ds new)
    ∙ run-steps cs (push_child ds (inode file n ids nil)) m b h k
        (Apart-push_child ds cs (inode file n ids nil) a fresh)
run-steps (cons (inode file n ids (cons x xs)) cs) ds m b ((bad, _), _, _) k a = absurd bad
run-steps (cons (inode directory n ids es) cs) ds m b ((_, he), fresh, h) ((none_here, ke), k)
      (new, a) =
    let made = inode directory m b (push_child ds (new_node directory n)) in
    let done = inode directory n [] es in
    ap (run (map (under n) (steps es) ++ steps cs)) (make_directory_lem m n b ds new)
    ∙ run-append (map (under n) (steps es)) (steps cs) made
    ∙ ap (run (steps cs)) (
        run-Lifts n (steps es) made (new_node directory n)
          (find_child_pushed ds (new_node directory n) new) refl
        ∙ ap (graft made n) (
            run-steps es nil n [] he ke (Apart-nil es)
            ∙ ap (inode directory n []) (push_children-nil es))
        ∙ ap (inode directory m b) (set_child-push_child ds (new_node directory n) done new))
    ∙ run-steps cs (push_child ds done) m b h k (Apart-push_child ds cs done a fresh)
    ∙ ap
        (λ (x : List ℤ).
          inode directory m b (push_children (push_child ds (inode directory n x es)) cs))
        (sym none_here)
