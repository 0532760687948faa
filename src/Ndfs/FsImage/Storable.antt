-- ===== src/Ndfs/FsImage/Storable.antt =====
-- Nodes that an image of src/ndfs/fsimage.h can hold, under the operations of the tree.
use mini_hadoop.Common.{
  ◌≡◌, refl, subst, List, [], ◌∷◌, some, arith, All, All-append, Bool-cases, Option-cases, inl, inr,
}
use mini_hadoop.Common.Int.{ℤ, IsInt64}
use mini_hadoop.Common.Text.{Bytes, str_eq}
use mini_hadoop.Ndfs.InodeTree.{
  INode, inode, Children, nil, cons, directory, file, name, node_type, new_node, find_child,
  remove_child, push_child, set_child, get_node_at, mkdirs_at, create_file_at, delete_at,
  push_block_at, is_directory,
}
use mini_hadoop.Ndfs.InodeTree.View.{
  name-mkdirs_at, name-create_file_at, name-delete_at, name-push_block_at,
}
use mini_hadoop.Ndfs.FsImage.Paths.{IsStorableName}
use mini_hadoop.Ndfs.FsImage.RoundTrip.{IsStorable, AllStorable}

-- What is asked of a node but for its name.
abbrev pub IsBody : INode → Type 0
IsBody (inode directory n b cs) = (b ≡ []) × AllStorable cs
IsBody (inode file n b cs) = All IsInt64 b

IsStorable-IsBody : (c : INode) → IsStorable c → IsStorableName (name c) × IsBody c
IsStorable-IsBody (inode directory n b cs) (hn, hb, h) = (hn, (hb, h))
IsStorable-IsBody (inode file n b cs) (hn, h) = (hn, h)

IsBody-IsStorable : (c : INode) → IsStorableName (name c) → IsBody c → IsStorable c
IsBody-IsStorable (inode directory n b cs) hn (hb, h) = (hn, hb, h)
IsBody-IsStorable (inode file n b cs) hn h = (hn, h)

find_child-IsStorable :
    (cs : Children) (p : Bytes) (c : INode)
    → AllStorable cs
    → find_child cs p ≡ some c
    → IsStorable c
unfolding find_child
find_child-IsStorable nil p c h e = cc
find_child-IsStorable (cons x cs) p c (hx, h) e = elim (Bool-cases (str_eq (name x) p)) [
  | inl s ↦ let same : x ≡ c = ground arith in subst IsStorable same hx
  | inr s ↦ find_child-IsStorable cs p c h (ground arith)
]

push_child-AllStorable :
    (cs : Children) (d : INode) → AllStorable cs → IsStorable d → AllStorable (push_child cs d)
unfolding push_child
push_child-AllStorable nil d h k = (k, tt)
push_child-AllStorable (cons x cs) d (hx, h) k = (hx, push_child-AllStorable cs d h k)

set_child-AllStorable :
    (cs : Children) (p : Bytes) (d : INode)
    → AllStorable cs
    → IsStorable d
    → AllStorable (set_child cs p d)
unfolding set_child
set_child-AllStorable nil p d h k = tt
set_child-AllStorable (cons x cs) p d (hx, h) k = elim (Bool-cases (str_eq (name x) p)) [
  | inl s ↦ rw s (k, h)
  | inr s ↦ rw s (hx, set_child-AllStorable cs p d h k)
]

remove_child-AllStorable :
    (cs ds : Children) (p : Bytes) → AllStorable cs → remove_child cs p ≡ some ds → AllStorable ds
unfolding remove_child
remove_child-AllStorable nil ds p h e = cc
remove_child-AllStorable (cons x cs) ds p (hx, h) e = elim (Bool-cases (str_eq (name x) p)) [
  | inl s ↦ let same : cs ≡ ds = ground arith in subst AllStorable same h
  | inr s ↦ elim (Option-cases (remove_child cs p)) [
    | inl k ↦ absurd (ground arith)
    | inr (es, k) ↦
        let same : cons x es ≡ ds = ground arith in
        subst AllStorable same (hx, remove_child-AllStorable cs es p h k)
  ]
]

-- A child that was changed and kept its name.
changed_child :
    (n : Bytes) (b : List ℤ) (cs : Children) (p : Bytes) (c d : INode)
    → IsBody (inode directory n b cs)
    → find_child cs p ≡ some c
    → name d ≡ name c
    → (IsBody c → IsBody d)
    → IsBody (inode directory n b (set_child cs p d))
changed_child n b cs p c d (hb, h) e named keep =
    let (hn, body) = IsStorable-IsBody c (find_child-IsStorable cs p c h e) in
    (hb, set_child-AllStorable cs p d h (IsBody-IsStorable d (rw named hn) (keep body)))

pub mkdirs_at-IsBody :
    (ps : List Bytes) (cur : INode)
    → All IsStorableName ps
    → IsBody cur
    → IsBody (mkdirs_at ps cur).0
unfolding mkdirs_at
mkdirs_at-IsBody [] cur hp h = h
mkdirs_at-IsBody (p ∷ ps) (inode file n b cs) hp h = elim (Option-cases (find_child cs p)) [
  | inl e ↦ rw (mkdirs_at, e) h
  | inr (c, e) ↦ elim (Bool-cases (is_directory (node_type c))) [
    | inl d ↦ rw (mkdirs_at, e, d) h
    | inr d ↦ rw (mkdirs_at, e, d) h
  ]
]
mkdirs_at-IsBody (p ∷ ps) (inode directory n b cs) (hp, hps) h =
    elim (Option-cases (find_child cs p)) [
      | inl e ↦
          let new = new_node directory p in
          let made = (mkdirs_at ps new).0 in
          rw (mkdirs_at, e)
            (
              h.0,
              push_child-AllStorable cs made h.1 (
                  IsBody-IsStorable made (rw (name-mkdirs_at ps new) hp)
                    (mkdirs_at-IsBody ps new hps (refl, tt))),
            )
      | inr (c, e) ↦ elim (Bool-cases (is_directory (node_type c))) [
        | inl d ↦
            rw (mkdirs_at, e, d)
              (changed_child n b cs p c (mkdirs_at ps c).0 h e (name-mkdirs_at ps c)
                (mkdirs_at-IsBody ps c hps))
        | inr d ↦ rw (mkdirs_at, e, d) h
      ]
    ]

pub create_file_at-IsBody :
    (ps : List Bytes) (cur : INode)
    → All IsStorableName ps
    → IsBody cur
    → IsBody (create_file_at ps cur).0
unfolding create_file_at
create_file_at-IsBody [] cur hp h = h
create_file_at-IsBody (p ∷ []) (inode file n b cs) hp h = elim (Option-cases (find_child cs p)) [
  | inl e ↦ rw (create_file_at, e) h
  | inr (c, e) ↦ rw (create_file_at, e) h
]
create_file_at-IsBody (p ∷ []) (inode directory n b cs) (hp, _) h =
    elim (Option-cases (find_child cs p)) [
      | inl e ↦
          rw (create_file_at, e) (h.0, push_child-AllStorable cs (new_node file p) h.1 (hp, tt))
      | inr (c, e) ↦ rw (create_file_at, e) h
    ]
create_file_at-IsBody (p ∷ q ∷ ps) (inode file n b cs) hp h =
    elim (Option-cases (find_child cs p)) [
      | inl e ↦ rw (create_file_at, e) h
      | inr (c, e) ↦ elim (Bool-cases (is_directory (node_type c))) [
        | inl d ↦ rw (create_file_at, e, d) h
        | inr d ↦ rw (create_file_at, e, d) h
      ]
    ]
create_file_at-IsBody (p ∷ q ∷ ps) (inode directory n b cs) (hp, hps) h =
    elim (Option-cases (find_child cs p)) [
      | inl e ↦ rw (create_file_at, e) h
      | inr (c, e) ↦ elim (Bool-cases (is_directory (node_type c))) [
        | inl d ↦
            rw (create_file_at, e, d)
              (changed_child n b cs p c (create_file_at (q ∷ ps) c).0 h e
                (name-create_file_at (q ∷ ps) c) (create_file_at-IsBody (q ∷ ps) c hps))
        | inr d ↦ rw (create_file_at, e, d) h
      ]
    ]

pub delete_at-IsBody : (ps : List Bytes) (cur : INode) → IsBody cur → IsBody (delete_at ps cur).0
unfolding delete_at
delete_at-IsBody [] cur h = h
delete_at-IsBody (p ∷ []) (inode file n b cs) h = elim (Option-cases (remove_child cs p)) [
  | inl e ↦ rw (delete_at, e) h
  | inr (ds, e) ↦ rw (delete_at, e) h
]
delete_at-IsBody (p ∷ []) (inode directory n b cs) h = elim (Option-cases (remove_child cs p)) [
  | inl e ↦ rw (delete_at, e) h
  | inr (ds, e) ↦ rw (delete_at, e) (h.0, remove_child-AllStorable cs ds p h.1 e)
]
delete_at-IsBody (p ∷ q ∷ ps) (inode file n b cs) h = elim (Option-cases (find_child cs p)) [
  | inl e ↦ rw (delete_at, e) h
  | inr (c, e) ↦ rw (delete_at, e) h
]
delete_at-IsBody (p ∷ q ∷ ps) (inode directory n b cs) h = elim (Option-cases (find_child cs p)) [
  | inl e ↦ rw (delete_at, e) h
  | inr (c, e) ↦
      rw (delete_at, e)
        (changed_child n b cs p c (delete_at (q ∷ ps) c).0 h e (name-delete_at (q ∷ ps) c)
          (delete_at-IsBody (q ∷ ps) c))
]

-- A block of a file.
pub push_block_at-IsBody :
    (ps : List Bytes) (id : ℤ) (cur node : INode)
    → get_node_at ps cur ≡ some node
    → node_type node ≡ file
    → IsInt64 id
    → IsBody cur
    → IsBody (push_block_at ps id cur)
unfolding push_block_at get_node_at
push_block_at-IsBody [] id (inode file n b cs) node e k hid h =
    All-append IsInt64 b (id ∷ []) h (hid, tt)
push_block_at-IsBody [] id (inode directory n b cs) node e k hid h = absurd (ground arith)
push_block_at-IsBody (p ∷ ps) id (inode file n b cs) node e k hid h =
    elim (Option-cases (find_child cs p)) [
      | inl s ↦ rw (push_block_at, s) h
      | inr (c, s) ↦ rw (push_block_at, s) h
    ]
push_block_at-IsBody (p ∷ ps) id (inode directory n b cs) node e k hid h =
    elim (Option-cases (find_child cs p)) [
      | inl s ↦ rw (push_block_at, s) h
      | inr (c, s) ↦
          rw (push_block_at, s)
            (changed_child n b cs p c (push_block_at ps id c) h s (name-push_block_at ps id c)
              (push_block_at-IsBody ps id c node (rw (get_node_at, s) at e) k hid))
    ]
