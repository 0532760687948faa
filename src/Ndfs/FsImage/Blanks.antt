-- ===== src/Ndfs/FsImage/Blanks.antt =====
-- Names with a blank in an image of src/ndfs/fsimage.h.
use mini_hadoop.Common.{
  ℕ, true, false, Bool, ◌≡◌, refl, ap, ◌∙◌, List, [], ◌∷◌, ◌++◌, append_assoc, some, arith, All,
  All-append, take, ◌==◌,
}
use mini_hadoop.Common.Int.{ℤ}
use mini_hadoop.Common.Text.{Bytes, codes, str_eq}
use mini_hadoop.Common.Text.Streams.{
  split_on, split_on-append, IsSolid, next_word, take_word-append,
}
use mini_hadoop.Ndfs.InodeTree.{
  INode, inode, nil, cons, directory, file, empty_tree, create_file, create_file_at, mkdirs_at,
}
use mini_hadoop.Ndfs.FsImage.{
  print_blocks, header, serialize_node, save, load, load_line, load_lines, load_file, load_made,
  without_header,
}
use mini_hadoop.Ndfs.FsImage.Lines.{next_word-path}
use mini_hadoop.Ndfs.FsImage.Paths.{IsStorableName, full_path}
use mini_hadoop.Ndfs.FsImage.Paths.{
  full_path-IsSolid, full_path-cons, split_path-full_path, made_parent,
}
use mini_hadoop.Ndfs.FsImage.BlockIds.{print_blocks-IsSolid}
use mini_hadoop.Ndfs.FsImage.RoundTrip.{one_line, load_lines-cons}

-- The root with one file.
abbrev pub with_file : Bytes → List ℤ → INode
with_file n ids = inode directory [] [] (cons (inode file n ids nil) nil)

-- A file whose token is no list of blocks is made without blocks.
load_file_unfilled :
    (n token : Bytes) (tree : INode)
    → IsStorableName n
    → str_eq (take 7 token) (codes "blocks=") ≡ false
    → load_file (full_path [] n) token tree ≡ some (create_file_at (n ∷ []) tree).0
unfolding load_file mkdirs_at
load_file_unfilled n token tree k e =
    ap (λ (t : INode). load_made (full_path [] n) token (create_file t (full_path [] n)))
      (made_parent [] n tree tt k)
    ∙ unfold create_file in
      ap (λ (qs : List Bytes). load_made (full_path [] n) token (create_file_at qs tree))
        (split_path-full_path [] n tt k)
      ∙ unmade (create_file_at (n ∷ []) tree)
  where
    unmade : (r : INode × Bool) → load_made (full_path [] n) token r ≡ some r.0
    unmade (t, false) = refl
    unmade (t, true) = rw e refl

next_word-token :
    (c : ℕ) (cs rest : Bytes)
    → IsSolid (c ∷ cs)
    → next_word (32 ∷ ((c ∷ cs) ++ (32 ∷ rest))) ≡ (c ∷ cs, 32 ∷ rest)
unfolding next_word
next_word-token c cs rest h = rw h.0 (take_word-append (c ∷ cs) rest h)

-- The line of a file with a name of two words.
abbrev blank_line : Bytes → Bytes → List ℤ → Bytes
blank_line n m ids =
    codes "FILE " ++ (full_path [] n ++ (32 ∷ (m ++ (codes " blocks=" ++ print_blocks ids))))

load_blank_line :
    (n : Bytes) (c : ℕ) (cs : Bytes) (ids : List ℤ) (tree : INode)
    → IsStorableName n
    → IsSolid (c ∷ cs)
    → str_eq (take 7 (c ∷ cs)) (codes "blocks=") ≡ false
    → load_line (blank_line n (c ∷ cs) ids) tree ≡ some (create_file_at (n ∷ []) tree).0
unfolding load_line
load_blank_line n c cs ids tree k h e =
    let (d, ds, shown) = full_path-cons [] n tt k in
    let behind = (c ∷ cs) ++ (codes " blocks=" ++ print_blocks ids) in
    unfold str_eq in
    (ap (λ (r : Bytes × Bytes). load_file r.0 (next_word r.1).0 tree)
        (next_word-path (full_path [] n) behind d ds shown (full_path-IsSolid [] n tt k))
      ∙ ap (λ (r : Bytes × Bytes). load_file (full_path [] n) r.0 tree)
          (next_word-token c cs (codes "blocks=" ++ print_blocks ids) h)
      ∙ load_file_unfilled n (c ∷ cs) tree k e)

blank_line-IsLine :
    (n m : Bytes) (ids : List ℤ)
    → IsStorableName n
    → IsSolid m
    → All (λ c. (c == 10) ≡ false) (blank_line n m ids)
blank_line-IsLine n m ids k h =
    let plain : ℕ → Type 0 = λ c. (c == 10) ≡ false in
    All-append plain (codes "FILE ")
      (full_path [] n ++ (32 ∷ (m ++ (codes " blocks=" ++ print_blocks ids)))) (ground arith)
      (All-append plain (full_path [] n) (32 ∷ (m ++ (codes " blocks=" ++ print_blocks ids)))
        (one_line (full_path [] n) (full_path-IsSolid [] n tt k))
        (
          refl,
          All-append plain m (codes " blocks=" ++ print_blocks ids) (one_line m h) (
              All-append plain (codes " blocks=") (print_blocks ids) (ground arith)
                (one_line (print_blocks ids) (print_blocks-IsSolid ids))),
        ))

serialize_blank :
    (n m : Bytes) (ids : List ℤ)
    → serialize_node (cons (inode file (n ++ (32 ∷ m)) ids nil) nil) []
      ≡ blank_line n m ids ++ (10 ∷ [])
unfolding serialize_node
serialize_blank n m ids = simp append_assoc

-- A file of the root whose name is two words with a blank between them, the second of which does
-- not start with "blocks=", is loaded from the image as a file of the first word, without blocks.
pub load-save_blank :
    (n : Bytes) (c : ℕ) (cs : Bytes) (ids : List ℤ)
    → IsStorableName n
    → IsSolid (c ∷ cs)
    → str_eq (take 7 (c ∷ cs)) (codes "blocks=") ≡ false
    → load (save (with_file (n ++ (32 ∷ c ∷ cs)) ids)) empty_tree ≡ some (with_file n [])
unfolding load save
load-save_blank n c cs ids k h e =
    let image = serialize_node (cons (inode file (n ++ (32 ∷ c ∷ cs)) ids nil) nil) [] in
    ap (λ (lines : List Bytes). load_lines (without_header lines) empty_tree)
      (split_on-append 10 header image refl (ground arith))
    ∙ ap (λ (s : Bytes). load_lines (split_on 10 s) empty_tree) (serialize_blank n (c ∷ cs) ids)
    ∙ load_lines-cons (blank_line n (c ∷ cs) ids) [] empty_tree
        (create_file_at (n ∷ []) empty_tree).0 (blank_line-IsLine n (c ∷ cs) ids k h)
        (load_blank_line n c cs ids empty_tree k h e)
    ∙ unfold create_file_at in refl
