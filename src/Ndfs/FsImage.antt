-- ===== src/Ndfs/FsImage.antt =====
-- src/ndfs/fsimage.h: the image of the name space on disk. A file is its bytes. That it cannot be
-- opened, in which case `Save` and `Load` do nothing, and the renaming of the temporary file are left
-- out.
mod Operations
mod Steps
pub mod BlockIds
pub mod Paths
mod Lines
pub mod RoundTrip
pub mod Blanks
pub mod SolidPaths
pub mod Storable
mod Examples
use mini_hadoop.Common.{
  ℕ, suc, Bool, true, false, ◌||◌, List, [], ◌∷◌, ◌++◌, Option, none, some, ◌==◌, if◌then◌else◌,
  take, drop,
}
use mini_hadoop.Common.Decimal.{print_long, stoll}
use mini_hadoop.Common.Int.{ℤ}
use mini_hadoop.Common.Text.{Bytes, codes, str_eq}
use mini_hadoop.Common.Text.Streams.{next_word, split_on}
use mini_hadoop.Ndfs.InodeTree.{
  INode, inode, Children, nil, cons, directory, file, children, mkdirs, create_file, push_block,
}

-- The block ids of a file, with commas between them.
unfoldable pub print_blocks : List ℤ → Bytes
unfolding print_long
print_blocks [] = []
print_blocks (id ∷ []) = print_long id
print_blocks (id ∷ next ∷ ids) = print_long id ++ (b',' ∷ print_blocks (next ∷ ids))

-- `SerializeNode`, over the children of a node.
unfoldable pub serialize_node : Children → Bytes → Bytes
unfolding print_blocks
serialize_node nil prefix = []
serialize_node (cons (inode directory n b ds) cs) prefix =
    codes "DIR "
    ++ ((prefix ++ (b'/' ∷ n))
        ++ (10 ∷ (serialize_node ds (prefix ++ (b'/' ∷ n)) ++ serialize_node cs prefix)))
serialize_node (cons (inode file n b ds) cs) prefix =
    codes "FILE "
    ++ ((prefix ++ (b'/' ∷ n))
        ++ (codes " blocks=" ++ (print_blocks b ++ (10 ∷ serialize_node cs prefix))))

abbrev pub header : Bytes
header = codes "# mini-hadoop FsImage v1"

-- `Save`: the bytes of the file.
unfoldable pub save : INode → Bytes
unfolding serialize_node
save tree = header ++ (10 ∷ serialize_node (children tree) [])

-- `std::string::rfind` of a character.
unfoldable pub rfind : ℕ → Bytes → Option ℕ
rfind c [] = none
rfind c (x ∷ xs) = elim (rfind c xs) [
  | some i ↦ some (suc i)
  | none ↦ if x == c then some 0 else none
]

abbrev pub parent_until : Option ℕ → Bytes → Bytes
parent_until none path = codes "/"
parent_until (some i) path = if i == 0 then codes "/" else take i path

unfoldable pub get_parent_dir : Bytes → Bytes
unfolding rfind
get_parent_dir path = parent_until (rfind b'/' path) path

-- The blocks of the file that was just made. `none` is the exception of `std::stoll`, which ends the
-- process.
unfoldable pub load_blocks : Bytes → List Bytes → INode → Option INode
unfolding stoll push_block
load_blocks path [] tree = some tree
load_blocks path ([] ∷ ids) tree = load_blocks path ids tree
load_blocks path ((c ∷ cs) ∷ ids) tree = elim (stoll (c ∷ cs)) [
  | none ↦ none
  | some id ↦ load_blocks path ids (push_block tree path id)
]

abbrev pub load_made : Bytes → Bytes → INode × Bool → Option INode
load_made path token (tree, false) = some tree
load_made path token (tree, true) =
    if str_eq (take 7 token) (codes "blocks=")
    then load_blocks path (split_on b',' (drop 7 token)) tree
    else some tree

-- The branch of a file.
unfoldable pub load_file : Bytes → Bytes → INode → Option INode
unfolding get_parent_dir load_blocks split_on
load_file path token tree =
    let parent = get_parent_dir path in
    load_made path token
      (create_file (if str_eq parent (codes "/") then tree else (mkdirs tree parent).0) path)

-- The branch of a directory.
abbrev pub load_directory : Bytes → INode → INode
load_directory path tree =
    if str_eq path [] || str_eq path (codes "/") then tree else (mkdirs tree path).0

-- A line of the file.
unfoldable pub load_line : Bytes → INode → Option INode
unfolding next_word load_file
load_line [] tree = some tree
load_line (c ∷ cs) tree =
    let (type, fields) = next_word (c ∷ cs) in
    let (path, more) = next_word fields in
    if c == b'#'
    then some tree
    else if str_eq type (codes "DIR")
    then some (load_directory path tree)
    else if str_eq type (codes "FILE")
    then load_file path (next_word more).0 tree
    else some tree

unfoldable pub load_lines : List Bytes → INode → Option INode
unfolding load_line
load_lines [] tree = some tree
load_lines (line ∷ lines) tree = elim (load_line line tree) [
  | none ↦ none
  | some tree' ↦ load_lines lines tree'
]

abbrev pub without_header : List Bytes → List Bytes
without_header [] = []
without_header (line ∷ lines) = lines

-- `Load`: `none` if it throws.
unfoldable pub load : Bytes → INode → Option INode
unfolding split_on load_lines
load bytes tree = load_lines (without_header (split_on 10 bytes)) tree
