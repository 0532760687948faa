-- ===== src/Ndfs/FsImage/Operations.antt =====
-- What the lines of an image do to the tree, by paths: below a directory, an operation on the path
-- from there does to the child what the operation on the whole path does to the tree.
use mini_hadoop.Common.{Bool, true, false, ◌≡◌, refl, sym, ap, ◌∙◌, List, [], ◌∷◌, some, arith}
use mini_hadoop.Common.Int.{ℤ}
use mini_hadoop.Common.Text.{Bytes, str_eq_refl, str_eq_iff}
use mini_hadoop.Ndfs.InodeTree.{
  INode, inode, Children, nil, cons, NodeType, directory, name, node_type, children, with_children,
  find_child, set_child, mkdirs_at, create_file_at, push_block_at,
}
use mini_hadoop.Ndfs.InodeTree.Siblings.{find_child-name, find_child-set_child, set_child_same}
use mini_hadoop.Ndfs.InodeTree.View.{
  name-create_file_at, name-push_block_at, node_type-create_file_at, node_type-push_block_at,
}

abbrev pub graft : INode → Bytes → INode → INode
graft cur p c = with_children cur (set_child (children cur) p c)

abbrev pub Keeps : (INode → INode) → Type 0
Keeps f = (c : INode) → (name (f c) ≡ name c) × (node_type (f c) ≡ node_type c)

-- `g` does at a node what `f` does at its child `p` of the type.
abbrev pub Lifts : NodeType → Bytes → (INode → INode) → (INode → INode) → Type 0
Lifts t p f g =
    (cur child : INode)
    → find_child (children cur) p ≡ some child
    → node_type child ≡ t
    → g cur ≡ graft cur p (f child)

pub set_child-set_child :
    (cs : Children) (p : Bytes) (c d : INode)
    → name c ≡ p
    → set_child (set_child cs p c) p d ≡ set_child cs p d
unfolding set_child
set_child-set_child nil p c d h = refl
set_child-set_child (cons x cs) p c d h =
    ground (arith, str_eq_iff (name c) p, set_child-set_child cs p c d h)

pub find_child-graft :
    (cur : INode) (p : Bytes) (c d : INode)
    → find_child (children cur) p ≡ some c
    → name d ≡ name c
    → find_child (children (graft cur p d)) p ≡ some d
find_child-graft (inode t n b cs) p c d e h =
    let named : name d ≡ p = h ∙ find_child-name cs p c e in
    find_child-set_child cs p p c d e named ∙ rw (str_eq_refl p) refl

pub graft-graft :
    (cur : INode) (p : Bytes) (c d : INode) → name c ≡ p → graft (graft cur p c) p d ≡ graft cur p d
graft-graft (inode t n b cs) p c d h = ap (inode t n b) (set_child-set_child cs p c d h)

pub Lifts-compose :
    (t : NodeType) (p : Bytes) (f g f' g' : INode → INode)
    → Lifts t p f g
    → Keeps f
    → Lifts t p f' g'
    → Lifts t p (λ c. f' (f c)) (λ c. g' (g c))
Lifts-compose t p f g f' g' lifts keeps lifts' cur child e h =
    ap g' (lifts cur child e h)
    ∙ lifts' (graft cur p (f child)) (f child)
        (find_child-graft cur p child (f child) e (keeps child).0) ((keeps child).1 ∙ h)
    ∙ graft-graft cur p (f child) (f' (f child))
        ((keeps child).0 ∙ find_child-name (children cur) p child e)

pub Keeps-compose : (f f' : INode → INode) → Keeps f → Keeps f' → Keeps (λ c. f' (f c))
Keeps-compose f f' keeps keeps' c = ((keeps' (f c)).0 ∙ (keeps c).0, (keeps' (f c)).1 ∙ (keeps c).1)

abbrev pub add_directory : List Bytes → INode → INode
add_directory ps cur = (mkdirs_at ps cur).0

pub add_directory-Lifts :
    (p : Bytes) (ps : List Bytes) → Lifts directory p (add_directory ps) (add_directory (p ∷ ps))
unfolding mkdirs_at
add_directory-Lifts p ps (inode t n b cs) child e h = ground arith

create_file_at-Lifts :
    (p q : Bytes) (ps : List Bytes) (cur child : INode)
    → find_child (children cur) p ≡ some child
    → node_type child ≡ directory
    → create_file_at (p ∷ q ∷ ps) cur
      ≡ (graft cur p (create_file_at (q ∷ ps) child).0, (create_file_at (q ∷ ps) child).1)
unfolding create_file_at
create_file_at-Lifts p q ps (inode t n b cs) child e h = ground arith

push_block_at-Lifts :
    (t : NodeType) (p : Bytes) (ps : List Bytes) (id : ℤ)
    → Lifts t p (push_block_at ps id) (push_block_at (p ∷ ps) id)
unfolding push_block_at
push_block_at-Lifts _ p ps id (inode t n b cs) child e h = ground arith

abbrev pub push_blocks : List Bytes → List ℤ → INode → INode
push_blocks ps [] cur = cur
push_blocks ps (id ∷ ids) cur = push_blocks ps ids (push_block_at ps id cur)

push_blocks-Keeps : (ps : List Bytes) (ids : List ℤ) → Keeps (push_blocks ps ids)
push_blocks-Keeps ps [] c = (refl, refl)
push_blocks-Keeps ps (id ∷ ids) c =
    Keeps-compose (push_block_at ps id) (push_blocks ps ids)
      (λ c. (name-push_block_at ps id c, node_type-push_block_at ps id c))
      (push_blocks-Keeps ps ids) c

pub push_blocks-Lifts :
    (t : NodeType) (p : Bytes) (ps : List Bytes) (ids : List ℤ)
    → Lifts t p (push_blocks ps ids) (push_blocks (p ∷ ps) ids)
push_blocks-Lifts _ p ps [] (inode t n b cs) child e h =
    ap (inode t n b) (sym (set_child_same cs p child e))
push_blocks-Lifts t p ps (id ∷ ids) cur child e h =
    Lifts-compose t p (push_block_at ps id) (push_block_at (p ∷ ps) id) (push_blocks ps ids)
      (push_blocks (p ∷ ps) ids) (push_block_at-Lifts t p ps id)
      (λ c. (name-push_block_at ps id c, node_type-push_block_at ps id c))
      (push_blocks-Lifts t p ps ids) cur child e h

-- The blocks are appended if the file was made.
abbrev pub fill : List Bytes → List ℤ → INode × Bool → INode
fill path ids (tree, false) = tree
fill path ids (tree, true) = push_blocks path ids tree

abbrev pub fill_file : List Bytes → List ℤ → INode → INode
fill_file path ids cur = fill path ids (create_file_at path cur)

fill-Keeps :
    (path : List Bytes) (ids : List ℤ) (r : INode × Bool) (c : INode)
    → name r.0 ≡ name c
    → node_type r.0 ≡ node_type c
    → (name (fill path ids r) ≡ name c) × (node_type (fill path ids r) ≡ node_type c)
fill-Keeps path ids (tree, false) c h k = (h, k)
fill-Keeps path ids (tree, true) c h k =
    ((push_blocks-Keeps path ids tree).0 ∙ h, (push_blocks-Keeps path ids tree).1 ∙ k)

pub fill_file-Keeps : (path : List Bytes) (ids : List ℤ) → Keeps (fill_file path ids)
fill_file-Keeps path ids c =
    fill-Keeps path ids (create_file_at path c) c (name-create_file_at path c)
      (node_type-create_file_at path c)

fill-graft :
    (p : Bytes) (path : List Bytes) (ids : List ℤ) (cur child : INode) (r : INode × Bool)
    → find_child (children cur) p ≡ some child
    → node_type child ≡ directory
    → name r.0 ≡ name child
    → node_type r.0 ≡ node_type child
    → fill (p ∷ path) ids (graft cur p r.0, r.1) ≡ graft cur p (fill path ids r)
fill-graft p path ids cur child (tree, false) e h named typed = refl
fill-graft p path ids cur child (tree, true) e h named typed =
    push_blocks-Lifts directory p path ids (graft cur p tree) tree
      (find_child-graft cur p child tree e named) (typed ∙ h)
    ∙ graft-graft cur p tree (push_blocks path ids tree)
        (named ∙ find_child-name (children cur) p child e)

pub fill_file-Lifts :
    (p q : Bytes) (ps : List Bytes) (ids : List ℤ)
    → Lifts directory p (fill_file (q ∷ ps) ids) (fill_file (p ∷ q ∷ ps) ids)
fill_file-Lifts p q ps ids cur child e h =
    ap (fill (p ∷ q ∷ ps) ids) (create_file_at-Lifts p q ps cur child e h)
    ∙ fill-graft p (q ∷ ps) ids cur child (create_file_at (q ∷ ps) child) e h
        (name-create_file_at (q ∷ ps) child) (node_type-create_file_at (q ∷ ps) child)
