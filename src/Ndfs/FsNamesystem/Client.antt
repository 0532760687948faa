-- ===== src/Ndfs/FsNamesystem/Client.antt =====
-- The client operations of `FsNamesystem`.
use mini_hadoop.Common.{
  ◌≡◌, Bool-cases, inl, inr, ℕ, zero, suc, Bool, true, false, not, ◌&&◌, List, [], ◌∷◌, ◌++◌, map,
  Option, none, some, ◌==◌, if◌then◌else◌, take,
}
use mini_hadoop.Common.Int.{ℤ, pos, eqb_ℤ}
use mini_hadoop.Common.Text.{Bytes}
use mini_hadoop.Common.Assoc.{Map, erase}
use mini_hadoop.Ndfs.InodeTree.{
  INode, is_directory, node_type, name, blocks, get_node, mkdirs, create_file, delete, push_block,
  list_dir,
}
use mini_hadoop.Ndfs.FsNamesystem.{
  FsNamesystem, Block, generate, DataNodeInfo, in_safe_mode, choose_targets, default_replication,
  set_datanodes, datanodes_of,
}

-- The position of the last slash, counted from `i`.
unfoldable pub rfind_slash : ℕ → Bytes → Option ℕ
rfind_slash i [] = none
rfind_slash i (c ∷ cs) = elim (rfind_slash (suc i) cs) [
  | some k ↦ some k
  | none ↦ if c == b'/' then some i else none
]

unfoldable pub get_parent_dir : Bytes → Bytes
unfolding rfind_slash
get_parent_dir path = elim (rfind_slash 0 path) [
  | none ↦ b'/' ∷ []
  | some zero ↦ b'/' ∷ []
  | some (suc k) ↦ take (suc k) path
]

-- `StartFileResult` and `AddBlockResult`: a block and its DataNodes.
abbrev pub Allocation : Type 0
Allocation = Block × List DataNodeInfo

-- `return {}`
abbrev pub no_block : Allocation
no_block = (generate (pos 0) (pos 0), [])

abbrev pub exists : INode → Bytes → Bool
exists tree path = elim (get_node tree path) [ none ↦ false | some _ ↦ true ]

abbrev pub is_file : INode → Bytes → Bool
is_file tree path = elim (get_node tree path) [
  | none ↦ false
  | some node ↦ not (is_directory (node_type node))
]

-- A new block with its targets, appended to the file at the path.
abbrev pub allocate : ℤ → Bytes → FsNamesystem → FsNamesystem × Allocation
allocate id path s =
    let targets = choose_targets default_replication s in
    (
      record (set_datanodes id targets s) { tree = push_block s.tree path id },
      (generate id (pos 0), targets),
    )

-- The calls that `StartFile` makes on the tree, up to `CreateFile`.
abbrev pub cleared_tree : Bytes → Bool → INode → INode
cleared_tree path overwrite tree =
    if exists tree path && overwrite then (delete tree path).0 else tree

abbrev pub started_tree : Bytes → Bool → INode → INode × Bool
started_tree path overwrite tree =
    create_file (mkdirs (cleared_tree path overwrite tree) (get_parent_dir path)).0 path

unfoldable pub start_file : ℤ → Bytes → Bool → FsNamesystem → FsNamesystem × Allocation
start_file id path overwrite s =
    let started = started_tree path overwrite s.tree in
    if in_safe_mode s
    then (s, no_block)
    else if exists s.tree path && not overwrite
    then (s, no_block)
    else if not started.1
    then (record s { tree = started.0 }, no_block)
    else allocate id path (record s { tree = started.0 })

-- `StartFile` changes nothing, or only the tree, or makes the file and allocates its first block.
pub start_file_cases :
    (P : FsNamesystem × Allocation → Type 0) (id : ℤ) (path : Bytes) (overwrite : Bool)
    (s : FsNamesystem)
    → P (s, no_block)
    → ((started_tree path overwrite s.tree).1 ≡ false
        → P (record s { tree = (started_tree path overwrite s.tree).0 }, no_block))
    → (in_safe_mode s ≡ false
        → (exists s.tree path && not overwrite) ≡ false
        → (started_tree path overwrite s.tree).1 ≡ true
        → P (allocate id path (record s { tree = (started_tree path overwrite s.tree).0 })))
    → P (start_file id path overwrite s)
unfolding start_file
start_file_cases P id path overwrite s refused failed made = elim (Bool-cases (in_safe_mode s)) [
  | inl e ↦ rw e refused
  | inr e ↦ elim (Bool-cases (exists s.tree path && not overwrite)) [
    | inl k ↦ rw (e, k) refused
    | inr k ↦ elim (Bool-cases (started_tree path overwrite s.tree).1) [
      | inl m ↦ rw (e, k, m) (made e k m)
      | inr m ↦ rw (e, k, m) (failed m)
    ]
  ]
]

unfoldable pub add_block : ℤ → Bytes → FsNamesystem → FsNamesystem × Allocation
add_block id path s = if is_file s.tree path then allocate id path s else (s, no_block)

-- `blocks` and `locations`, which the code fills in step.
unfoldable pub get_blocks : Bytes → FsNamesystem → List Block × List (List DataNodeInfo)
get_blocks path s = elim (get_node s.tree path) [
  | none ↦ ([], [])
  | some node ↦ if is_directory (node_type node) then ([], []) else (
    map (λ id. generate id (pos 0)) (blocks node),
    map (λ id. datanodes_of id s) (blocks node),
  )
]

abbrev pub erase_blocks : List ℤ → Map ℤ (List DataNodeInfo) → Map ℤ (List DataNodeInfo)
erase_blocks [] m = m
erase_blocks (id ∷ ids) m = erase_blocks ids (erase eqb_ℤ id m)

unfoldable pub delete_path : Bytes → FsNamesystem → FsNamesystem × Bool
delete_path path s = elim (get_node s.tree path) [
  | none ↦ (s, false)
  | some node ↦
      let freed =
        if is_directory (node_type node)
        then s.block_to_datanodes
        else erase_blocks (blocks node) s.block_to_datanodes in
      let (tree', done) = delete s.tree path in
      (record s { tree = tree'; block_to_datanodes = freed }, done)
]

unfoldable pub make_dirs : Bytes → FsNamesystem → FsNamesystem × Bool
make_dirs path s = let (tree', done) = mkdirs s.tree path in (record s { tree = tree' }, done)

unfoldable pub get_listing : Bytes → FsNamesystem → List Bytes
get_listing path s =
    map (λ n. if is_directory (node_type n) then name n ++ (b'/' ∷ []) else name n)
      (list_dir s.tree path)
