-- ===== src/Ndfs/FsImage/RoundTrip.antt =====
-- Loading the image of a tree, by src/ndfs/fsimage.h.
use mini_hadoop.Common.{
  ℕ, false, ◌≡◌, refl, sym, ap, ap₂, ◌∙◌, List, [], ◌∷◌, ◌++◌, append_assoc, append-nil, map, some,
  arith, All, All-append, All-weaken, ◌==◌,
}
use mathlib.Core.List.{map-append}
use mini_hadoop.Common.Int.{ℤ, IsInt64}
use mini_hadoop.Common.Text.{Bytes, codes}
use mini_hadoop.Common.Text.Streams.{split_on, split_on-append, is_blank, IsSolid}
use mini_hadoop.Ndfs.InodeTree.{INode, inode, Children, nil, cons, directory, file, empty_tree}
use mini_hadoop.Ndfs.InodeTree.Path.{join}
use mini_hadoop.Ndfs.InodeTree.WellFormed.{AllDistinct}
use mini_hadoop.Ndfs.FsImage.{
  print_blocks, header, serialize_node, save, load, load_line, load_lines, without_header,
}
use mini_hadoop.Ndfs.FsImage.Steps.{
  Step, make_directory, make_file, apply, under, run, run-append, steps, push_children-nil,
  Apart-nil, AllPlain, run-steps,
}
use mini_hadoop.Ndfs.FsImage.Lines.{directory_line, file_line, load_directory_line, load_file_line}
use mini_hadoop.Ndfs.FsImage.Paths.{IsStorableName, full_path}
use mini_hadoop.Ndfs.FsImage.Paths.{full_path-IsSolid, join-snoc}
use mini_hadoop.Ndfs.FsImage.BlockIds.{print_blocks-IsSolid}

-- What an image can hold: names without blanks, directories without blocks, and 64-bit block ids.
abbrev mutual
  pub IsStorable : INode → Type 0
  IsStorable (inode directory n b cs) = IsStorableName n × (b ≡ []) × AllStorable cs
  IsStorable (inode file n b cs) = IsStorableName n × All IsInt64 b

  pub AllStorable : Children → Type 0
  AllStorable nil = Unit
  AllStorable (cons c cs) = IsStorable c × AllStorable cs

AllStorable-AllPlain : (cs : Children) → AllStorable cs → AllPlain cs
AllStorable-AllPlain nil h = tt
AllStorable-AllPlain (cons (inode directory n b ds) cs) ((_, hb, hd), h) =
    ((hb, AllStorable-AllPlain ds hd), AllStorable-AllPlain cs h)
AllStorable-AllPlain (cons (inode file n b ds) cs) (_, h) = (tt, AllStorable-AllPlain cs h)

abbrev at : List Bytes → Step → Step
at ps (make_directory path) = make_directory (ps ++ path)
at ps (make_file parent n ids) = make_file (ps ++ parent) n ids

at-under :
    (ps : List Bytes) (n : Bytes) (ss : List Step)
    → map (at ps) (map (under n) ss) ≡ map (at (ps ++ (n ∷ []))) ss
at-under ps n [] = refl
at-under ps n (make_directory path ∷ ss) =
    ap₂ ◌∷◌ (ap make_directory (sym (append_assoc ps (n ∷ []) path))) (at-under ps n ss)
at-under ps n (make_file parent m ids ∷ ss) =
    ap₂ ◌∷◌ (ap (λ (qs : List Bytes). make_file qs m ids) (sym (append_assoc ps (n ∷ []) parent)))
      (at-under ps n ss)

-- A solid text has no line feed.
pub one_line : (s : Bytes) → IsSolid s → All (λ c. (c == 10) ≡ false) s
one_line s h = All-weaken (λ c. is_blank c ≡ false) _ s (λ c k. ground arith) h

directory_line-IsLine :
    (ps : List Bytes) (n : Bytes)
    → All IsStorableName ps
    → IsStorableName n
    → All (λ c. (c == 10) ≡ false) (directory_line ps n)
unfolding directory_line
directory_line-IsLine ps n h k =
    All-append (λ c. (c == 10) ≡ false) (codes "DIR ") (full_path ps n) (ground arith)
      (one_line (full_path ps n) (full_path-IsSolid ps n h k))

file_line-IsLine :
    (ps : List Bytes) (n : Bytes) (ids : List ℤ)
    → All IsStorableName ps
    → IsStorableName n
    → All (λ c. (c == 10) ≡ false) (file_line ps n ids)
unfolding file_line
file_line-IsLine ps n ids h k =
    let plain : ℕ → Type 0 = λ c. (c == 10) ≡ false in
    All-append plain (codes "FILE ") (full_path ps n ++ (codes " blocks=" ++ print_blocks ids))
      (ground arith)
      (All-append plain (full_path ps n) (codes " blocks=" ++ print_blocks ids)
        (one_line (full_path ps n) (full_path-IsSolid ps n h k))
        (All-append plain (codes " blocks=") (print_blocks ids) (ground arith)
          (one_line (print_blocks ids) (print_blocks-IsSolid ids))))

-- A line that is loaded is followed by the lines behind it.
pub load_lines-cons :
    (line rest : Bytes) (tree tree' : INode)
    → All (λ c. (c == 10) ≡ false) line
    → load_line line tree ≡ some tree'
    → load_lines (split_on 10 (line ++ (10 ∷ rest))) tree ≡ load_lines (split_on 10 rest) tree'
unfolding load_lines
load_lines-cons line rest tree tree' h e =
    ap (λ (lines : List Bytes). load_lines lines tree) (split_on-append 10 line rest refl h)
    ∙ rw (load_lines, e) refl

serialize-directory :
    (ps : List Bytes) (n : Bytes) (b : List ℤ) (ds cs : Children) (rest : Bytes)
    → serialize_node (cons (inode directory n b ds) cs) (join ps) ++ rest
      ≡ directory_line ps n
        ++ (10
            ∷ (serialize_node ds (join (ps ++ (n ∷ []))) ++ (serialize_node cs (join ps) ++ rest)))
unfolding serialize_node directory_line
serialize-directory ps n b ds cs rest =
    rw (join-snoc ps n) (unfold serialize_node directory_line in simp append_assoc)

serialize-file :
    (ps : List Bytes) (n : Bytes) (b : List ℤ) (ds cs : Children) (rest : Bytes)
    → serialize_node (cons (inode file n b ds) cs) (join ps) ++ rest
      ≡ file_line ps n b ++ (10 ∷ (serialize_node cs (join ps) ++ rest))
unfolding serialize_node file_line
serialize-file ps n b ds cs rest = simp append_assoc

-- The lines of the children of a directory, with any lines behind them.
load-serialize_node :
    (cs : Children) (ps : List Bytes) (rest : Bytes) (tree : INode)
    → AllStorable cs
    → All IsStorableName ps
    → load_lines (split_on 10 (serialize_node cs (join ps) ++ rest)) tree
      ≡ load_lines (split_on 10 rest) (run (map (at ps) (steps cs)) tree)
load-serialize_node nil ps rest tree h k = unfold serialize_node in refl
load-serialize_node (cons (inode file n b ds) cs) ps rest tree ((hn, hb), h) k =
    ap (λ (s : Bytes). load_lines (split_on 10 s) tree) (serialize-file ps n b ds cs rest)
    ∙ load_lines-cons (file_line ps n b) (serialize_node cs (join ps) ++ rest) tree _
        (file_line-IsLine ps n b k hn) (load_file_line ps n b tree k hn hb)
    ∙ load-serialize_node cs ps rest (apply (make_file ps n b) tree) h k
    ∙ ap
        (λ (qs : List Bytes).
          load_lines (split_on 10 rest)
            (run (map (at ps) (steps cs)) (apply (make_file qs n b) tree)))
        (sym (append-nil ps))
load-serialize_node (cons (inode directory n b ds) cs) ps rest tree ((hn, _, hd), h) k =
    let path = ps ++ (n ∷ []) in
    let made = apply (make_directory path) tree in
    let behind = serialize_node cs (join ps) ++ rest in
    ap (λ (s : Bytes). load_lines (split_on 10 s) tree) (serialize-directory ps n b ds cs rest)
    ∙ load_lines-cons (directory_line ps n) (serialize_node ds (join path) ++ behind) tree made
        (directory_line-IsLine ps n k hn) (load_directory_line ps n tree k hn)
    ∙ load-serialize_node ds path behind made hd (All-append _ ps (n ∷ []) k (hn, tt))
    ∙ load-serialize_node cs ps rest (run (map (at path) (steps ds)) made) h k
    ∙ ap (load_lines (split_on 10 rest)) (
        ap (λ (ss : List Step). run (map (at ps) (steps cs)) (run ss made))
          (sym (at-under ps n (steps ds)))
        ∙ sym (run-append (map (at ps) (map (under n) (steps ds))) (map (at ps) (steps cs)) made)
        ∙ ap (λ (ss : List Step). run ss made)
            (sym (map-append (at ps) (map (under n) (steps ds)) (steps cs))))

map-at-nil : (ss : List Step) → map (at []) ss ≡ ss
map-at-nil [] = refl
map-at-nil (make_directory path ∷ ss) = ap (◌∷◌ (make_directory path)) (map-at-nil ss)
map-at-nil (make_file parent n ids ∷ ss) = ap (◌∷◌ (make_file parent n ids)) (map-at-nil ss)

-- Loading the image of a well-formed tree into a new tree gives the same tree, the order of the
-- children included, if the names of its nodes have no blanks, its directories have no blocks and
-- its block ids are 64-bit integers.
pub load-save :
    (cs : Children)
    → AllDistinct cs
    → AllStorable cs
    → load (save (inode directory [] [] cs)) empty_tree ≡ some (inode directory [] [] cs)
unfolding load save
load-save cs h k =
    ap (λ (lines : List Bytes). load_lines (without_header lines) empty_tree)
      (split_on-append 10 header (serialize_node cs []) refl (ground arith))
    ∙ ap (λ (s : Bytes). load_lines (split_on 10 s) empty_tree)
        (sym (append-nil (serialize_node cs [])))
    ∙ load-serialize_node cs [] [] empty_tree k tt
    ∙ ap (load_lines []) (
        ap (λ (ss : List Step). run ss empty_tree) (map-at-nil (steps cs))
        ∙ run-steps cs nil [] [] h (AllStorable-AllPlain cs k) (Apart-nil cs)
        ∙ ap (inode directory [] []) (push_children-nil cs))
