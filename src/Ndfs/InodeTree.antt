-- ===== src/Ndfs/InodeTree.antt =====
-- src/ndfs/inode_tree.h: the tree of directories and files. `modification_time` and `parent` are
-- left out: the code sets them and never reads them. A method that changes the tree returns the
-- new tree with its result; where the C++ method returns a node, the result is whether it is one.
pub mod Path
pub mod Siblings
pub mod View
pub mod WellFormed
pub mod Refinement
mod Examples
use mathlib.Core.Option
use mini_hadoop.Common.{
  ℕ, Bool, true, false, List, [], ◌∷◌, ◌++◌, Option, none, some, ◌==◌, if◌then◌else◌,
}
use mini_hadoop.Common.Int.{ℤ}
use mini_hadoop.Common.Text.{Bytes, str_eq}

pub data NodeType : Type 0 where
  directory file : NodeType

abbrev pub is_directory : NodeType → Bool
is_directory directory = true
is_directory file = false

-- `INode`: its type, its name, its block ids and its children.
mutual
  pub data INode : Type 0 where
    inode : NodeType → Bytes → List ℤ → Children → INode

  pub data Children : Type 0 where
    nil : Children
    cons : INode → Children → Children

abbrev pub node_type : INode → NodeType
node_type (inode t n b cs) = t

abbrev pub name : INode → Bytes
name (inode t n b cs) = n

abbrev pub blocks : INode → List ℤ
blocks (inode t n b cs) = b

abbrev pub children : INode → Children
children (inode t n b cs) = cs

abbrev pub with_children : INode → Children → INode
with_children (inode t n b _) cs = inode t n b cs

abbrev pub new_node : NodeType → Bytes → INode
new_node t n = inode t n [] nil

-- `InodeTree()`: the root.
abbrev pub empty_tree : INode
empty_tree = new_node directory []

abbrev pub flush : Bytes → List Bytes → List Bytes
flush [] parts = parts
flush (c ∷ cs) parts = (c ∷ cs) ∷ parts

-- The loop of `SplitPath`, from the character at hand on.
unfoldable pub split_loop : Bytes → Bytes → List Bytes
split_loop [] current = flush current []
split_loop (c ∷ cs) current =
    let rest = split_loop cs [] in
    let longer = split_loop cs (current ++ (c ∷ [])) in
    if c == b'/' then flush current rest else longer

unfoldable pub split_path : Bytes → List Bytes
unfolding split_loop
split_path [] = []
split_path (c ∷ cs) =
    if str_eq (c ∷ cs) (b'/' ∷ []) then [] else split_loop (if c == b'/' then cs else c ∷ cs) []

unfoldable pub find_child : Children → Bytes → Option INode
find_child nil n = none
find_child (cons c cs) n = if str_eq (name c) n then some c else find_child cs n

-- `none` if there is no child of the name.
unfoldable pub remove_child : Children → Bytes → Option Children
remove_child nil n = none
remove_child (cons c cs) n =
    if str_eq (name c) n then some cs else Option.map (cons c) (remove_child cs n)

-- `children.push_back`
unfoldable pub push_child : Children → INode → Children
push_child nil d = cons d nil
push_child (cons c cs) d = cons c (push_child cs d)

-- A change of the node that `FindChild` points to.
unfoldable pub set_child : Children → Bytes → INode → Children
set_child nil n d = nil
set_child (cons c cs) n d = if str_eq (name c) n then cons d cs else cons c (set_child cs n d)

-- The loops over the parts of a path, from the node `cur` on.
unfoldable pub get_node_at : List Bytes → INode → Option INode
unfolding find_child
get_node_at [] cur = some cur
get_node_at (p ∷ ps) cur = elim (find_child (children cur) p) [
  | none ↦ none
  | some child ↦ get_node_at ps child
]

unfoldable pub mkdirs_at : List Bytes → INode → INode × Bool
unfolding find_child push_child set_child
mkdirs_at [] cur = (cur, true)
mkdirs_at (p ∷ ps) cur = elim (find_child (children cur) p) [
  | none ↦
      let (child', done) = mkdirs_at ps (new_node directory p) in
      (with_children cur (push_child (children cur) child'), done)
  | some child ↦
      let (child', done) = mkdirs_at ps child in
      if is_directory (node_type child)
      then (with_children cur (set_child (children cur) p child'), done)
      else (cur, false)
]

unfoldable pub create_file_at : List Bytes → INode → INode × Bool
unfolding find_child push_child set_child
create_file_at [] cur = (cur, false)
create_file_at (p ∷ []) cur = elim (find_child (children cur) p) [
  | none ↦ (with_children cur (push_child (children cur) (new_node file p)), true)
  | some child ↦ (cur, false)
]
create_file_at (p ∷ q ∷ ps) cur = elim (find_child (children cur) p) [
  | none ↦ (cur, false)
  | some child ↦
      let (child', done) = create_file_at (q ∷ ps) child in
      if is_directory (node_type child)
      then (with_children cur (set_child (children cur) p child'), done)
      else (cur, false)
]

unfoldable pub delete_at : List Bytes → INode → INode × Bool
unfolding find_child remove_child set_child
delete_at [] cur = (cur, false)
delete_at (p ∷ []) cur = elim (remove_child (children cur) p) [
  | none ↦ (cur, false)
  | some cs ↦ (with_children cur cs, true)
]
delete_at (p ∷ q ∷ ps) cur = elim (find_child (children cur) p) [
  | none ↦ (cur, false)
  | some child ↦
      let (child', done) = delete_at (q ∷ ps) child in
      (with_children cur (set_child (children cur) p child'), done)
]

-- `node->blocks.push_back(id)` on the node that `GetNode` or `CreateFile` returned for the path.
unfoldable pub push_block_at : List Bytes → ℤ → INode → INode
unfolding find_child set_child
push_block_at [] id (inode t n b cs) = inode t n (b ++ (id ∷ [])) cs
push_block_at (p ∷ ps) id cur = elim (find_child (children cur) p) [
  | none ↦ cur
  | some child ↦ with_children cur (set_child (children cur) p (push_block_at ps id child))
]

unfoldable pub get_node : INode → Bytes → Option INode
unfolding split_path get_node_at
get_node root path = get_node_at (split_path path) root

unfoldable pub mkdirs : INode → Bytes → INode × Bool
unfolding split_path mkdirs_at
mkdirs root path = mkdirs_at (split_path path) root

unfoldable pub create_file : INode → Bytes → INode × Bool
unfolding split_path create_file_at
create_file root path = create_file_at (split_path path) root

unfoldable pub delete : INode → Bytes → INode × Bool
unfolding split_path delete_at
delete root path = delete_at (split_path path) root

unfoldable pub push_block : INode → Bytes → ℤ → INode
unfolding split_path push_block_at
push_block root path id = push_block_at (split_path path) id root

abbrev pub child_list : Children → List INode
child_list nil = []
child_list (cons c cs) = c ∷ child_list cs

unfoldable pub list_dir : INode → Bytes → List INode
unfolding get_node
list_dir root path = elim (get_node root path) [
  | none ↦ []
  | some node ↦ if is_directory (node_type node) then child_list (children node) else []
]
