-- ===== src/Ndfs/FsImage/Examples.antt =====
-- Concrete images of src/ndfs/fsimage.h.
use mini_hadoop.Common.{◌≡◌, refl, [], ◌∷◌, ◌++◌, none, some, arith}
use mini_hadoop.Common.Int.{pos, negsuc}
use mini_hadoop.Common.Text.{codes, str_eq}
use mini_hadoop.Ndfs.InodeTree.{
  inode, Children, nil, cons, directory, file, empty_tree, find_child, mkdirs, create_file,
  push_block,
}
use mini_hadoop.Ndfs.FsImage.{
  save, load, serialize_node, load_line, load_lines, load_file, load_blocks,
}
use mini_hadoop.Ndfs.FsImage.Blanks.{with_file, load-save_blank}
use mini_hadoop.Ndfs.FsImage.RoundTrip.{load-save}

abbrev root_children : Children
root_children =
    cons
      (inode directory (codes "a") [] (
        cons (inode file (codes "f") (pos 12 ∷ negsuc 6 ∷ []) nil)
          (cons (inode directory (codes "b") [] nil) nil)))
      (cons (inode file (codes "g") [] nil) nil)

image_written :
    save (inode directory [] [] root_children)
    ≡ codes "# mini-hadoop FsImage v1"
      ++ (10
          ∷ (codes "DIR /a"
              ++ (10
                  ∷ (codes "FILE /a/f blocks=12,-7"
                      ++ (10
                          ∷ (codes "DIR /a/b" ++ (10 ∷ (codes "FILE /g blocks=" ++ (10 ∷ [])))))))))
unfolding save serialize_node
image_written = refl

-- A file before its directory, a line that is a remark, and one of no known type.
image_read :
    load
      (codes "head"
        ++ (10
            ∷ (codes "FILE /x/f blocks=7,,8"
                ++ (10
                    ∷ (codes "# remark" ++ (10 ∷ (codes "LINK /y" ++ (10 ∷ codes "DIR /x/d"))))))))
      empty_tree
    ≡ some (
        inode directory [] [] (
          cons
            (inode directory (codes "x") [] (
              cons
                (inode file (codes "f") (pos 7 ∷ pos 8 ∷ []) nil)
                (cons (inode directory (codes "d") [] nil) nil)))
            nil))
unfolding load load_lines load_line load_file load_blocks mkdirs create_file push_block str_eq
image_read = refl

-- A list of blocks that is no list of numbers.
image_refused : load (codes "head" ++ (10 ∷ codes "FILE /f blocks=x")) empty_tree ≡ none
unfolding load load_lines load_line load_file load_blocks mkdirs create_file push_block str_eq
image_refused = refl

load-save_example :
    load (save (inode directory [] [] root_children)) empty_tree
    ≡ some (inode directory [] [] root_children)
load-save_example =
    load-save root_children (unfold find_child str_eq in ground arith) (ground arith)

load-save_blank_example :
    load (save (with_file (codes "my" ++ (32 ∷ codes "file")) (pos 5 ∷ []))) empty_tree
    ≡ some (with_file (codes "my") [])
load-save_blank_example =
    load-save_blank (codes "my") b'f' (codes "ile") (pos 5 ∷ []) (ground arith) (ground arith)
      (unfold str_eq in refl)
