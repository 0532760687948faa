-- ===== src/Ndfs/FsImage/Lines.antt =====
-- The lines of an image of src/ndfs/fsimage.h, as they are written, and what is read from each.
use mini_hadoop.Common.{
  ℕ, Bool, true, false, ◌≡◌, refl, sym, ap, ◌∙◌, List, [], ◌∷◌, ◌++◌, some, arith, All, All-append,
}
use mini_hadoop.Common.Int.{ℤ, IsInt64}
use mini_hadoop.Common.Text.{Bytes, codes, str_eq}
use mini_hadoop.Common.Text.Streams.{
  next_word, is_blank, IsSolid, take_word, skip_blanks, take_word-append, take_word-solid,
}
use mini_hadoop.Ndfs.InodeTree.{INode, mkdirs, create_file, mkdirs_at, create_file_at}
use mini_hadoop.Ndfs.FsImage.{print_blocks, load_made, load_file, load_directory, load_line}
use mini_hadoop.Ndfs.FsImage.Operations.{add_directory, fill, fill_file}
use mini_hadoop.Ndfs.FsImage.BlockIds.{print_blocks-IsSolid, load_blocks-print_blocks}
use mini_hadoop.Ndfs.FsImage.Paths.{
  IsStorableName, full_path, split_path-full_path, full_path-IsSolid, full_path-cons, made_parent,
}

-- The file at the path is made below its directory, with its blocks.
pub load_file_lem :
    (ps : List Bytes) (n : Bytes) (ids : List ℤ) (tree : INode)
    → All IsStorableName ps
    → IsStorableName n
    → All IsInt64 ids
    → load_file (full_path ps n) (codes "blocks=" ++ print_blocks ids) tree
      ≡ some (fill_file (ps ++ (n ∷ [])) ids (add_directory ps tree))
unfolding load_file
load_file_lem ps n ids tree h k hids =
    let path = full_path ps n in
    let split = split_path-full_path ps n h k in
    let token = codes "blocks=" ++ print_blocks ids in
    ap (λ (t : INode). load_made path token (create_file t path)) (made_parent ps n tree h k)
    ∙ unfold create_file in
      ap (λ (qs : List Bytes). load_made path token (create_file_at qs (add_directory ps tree)))
        split
      ∙ load_made_lem (create_file_at (ps ++ (n ∷ [])) (add_directory ps tree))
  where
    load_made_lem :
        (r : INode × Bool)
        → load_made (full_path ps n) (codes "blocks=" ++ print_blocks ids) r
          ≡ some (fill (ps ++ (n ∷ [])) ids r)
    load_made_lem (t, false) = refl
    load_made_lem (t, true) =
        unfold str_eq in
        load_blocks-print_blocks (full_path ps n) (ps ++ (n ∷ [])) ids t
          (split_path-full_path ps n h k) hids

pub next_word-path :
    (path rest : Bytes) (c : ℕ) (cs : Bytes)
    → path ≡ b'/' ∷ c ∷ cs
    → IsSolid path
    → next_word (32 ∷ (path ++ (32 ∷ rest))) ≡ (path, 32 ∷ rest)
unfolding next_word
next_word-path path rest c cs e h =
    ap (λ (s : Bytes). take_word (skip_blanks (s ++ (32 ∷ rest)))) e
    ∙ ap (λ (s : Bytes). take_word (s ++ (32 ∷ rest))) (sym e)
    ∙ take_word-append path rest h

next_word-last :
    (path : Bytes) (c : ℕ) (cs : Bytes)
    → path ≡ b'/' ∷ c ∷ cs
    → IsSolid path
    → next_word (32 ∷ path) ≡ (path, [])
unfolding next_word
next_word-last path c cs e h =
    ap (λ (s : Bytes). take_word (skip_blanks s)) e ∙ ap take_word (sym e) ∙ take_word-solid path h

next_word-token :
    (ids : List ℤ)
    → next_word (32 ∷ (codes "blocks=" ++ print_blocks ids))
      ≡ (codes "blocks=" ++ print_blocks ids, [])
unfolding next_word
next_word-token ids = take_word-solid (codes "blocks=" ++ print_blocks ids) (
    All-append (λ c. is_blank c ≡ false) (codes "blocks=") (print_blocks ids) (ground arith)
      (print_blocks-IsSolid ids))

load_directory_lem :
    (ps : List Bytes) (n : Bytes) (tree : INode)
    → All IsStorableName ps
    → IsStorableName n
    → load_directory (full_path ps n) tree ≡ add_directory (ps ++ (n ∷ [])) tree
load_directory_lem ps n tree h k =
    let (c, cs, e) = full_path-cons ps n h k in
    ap (λ (s : Bytes). load_directory s tree) e
    ∙ unfold str_eq in
      ap (λ (s : Bytes). (mkdirs tree s).0) (sym e)
      ∙ unfold mkdirs in
        ap (λ (qs : List Bytes). (mkdirs_at qs tree).0) (split_path-full_path ps n h k)

unfoldable pub directory_line : List Bytes → Bytes → Bytes
directory_line ps n = codes "DIR " ++ full_path ps n

unfoldable pub file_line : List Bytes → Bytes → List ℤ → Bytes
file_line ps n ids = codes "FILE " ++ (full_path ps n ++ (codes " blocks=" ++ print_blocks ids))

-- The line of a directory makes it, with all above it.
pub load_directory_line :
    (ps : List Bytes) (n : Bytes) (tree : INode)
    → All IsStorableName ps
    → IsStorableName n
    → load_line (directory_line ps n) tree ≡ some (add_directory (ps ++ (n ∷ [])) tree)
unfolding load_line directory_line
load_directory_line ps n tree h k =
    let (c, cs, e) = full_path-cons ps n h k in
    let solid = full_path-IsSolid ps n h k in
    unfold str_eq in
    (ap (λ (r : Bytes × Bytes). some (load_directory r.0 tree))
        (next_word-last (full_path ps n) c cs e solid)
      ∙ ap some (load_directory_lem ps n tree h k))

pub load_file_line :
    (ps : List Bytes) (n : Bytes) (ids : List ℤ) (tree : INode)
    → All IsStorableName ps
    → IsStorableName n
    → All IsInt64 ids
    → load_line (file_line ps n ids) tree
      ≡ some (fill_file (ps ++ (n ∷ [])) ids (add_directory ps tree))
unfolding load_line file_line
load_file_line ps n ids tree h k hids =
    let (c, cs, e) = full_path-cons ps n h k in
    let solid = full_path-IsSolid ps n h k in
    let token = codes "blocks=" ++ print_blocks ids in
    unfold str_eq in
    (ap (λ (r : Bytes × Bytes). load_file r.0 (next_word r.1).0 tree)
        (next_word-path (full_path ps n) token c cs e solid)
      ∙ ap (λ (r : Bytes × Bytes). load_file (full_path ps n) r.0 tree) (next_word-token ids)
      ∙ load_file_lem ps n ids tree h k hids)
