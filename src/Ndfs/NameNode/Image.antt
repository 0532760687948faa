-- ===== src/Ndfs/NameNode/Image.antt =====
-- src/ndfs/name_node.h: the image of the name space at the start and the stop of the NameNode. The
-- server that they start and stop is in src/ipc/server.h.
use mathlib.Core.Option
use mini_hadoop.Common.{Option, none, some}
use mini_hadoop.Common.Text.{Bytes}
use mini_hadoop.Ndfs.FsImage.{save, load}
use mini_hadoop.Ndfs.FsNamesystem.{FsNamesystem, initial}
use mini_hadoop.Ndfs.InodeTree.{INode}

abbrev pub with_tree : INode → FsNamesystem
with_tree tree = record initial { tree = tree }

-- The constructor, on the image if there is one; the result is `none` if it throws.
unfoldable pub start : Option Bytes → Option FsNamesystem
unfolding load
start none = some initial
start (some image) = Option.map with_tree (load image initial.tree)

-- `Stop`: the image that is left.
unfoldable pub stop : FsNamesystem → Bytes
unfolding save
stop s = save s.tree
