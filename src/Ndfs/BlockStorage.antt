-- ===== src/Ndfs/BlockStorage.antt =====
-- src/ndfs/block_storage.h: the block files of a DataNode, as a map from the id in the name of a file
-- to its bytes, in the order in which the directory is listed. `block_path` is `BlockPath`. Whether
-- a file can be created is an argument; a created file takes all bytes.
use mini_hadoop.Common.{Bool, List, [], ◌++◌, map, none, some, length, if◌then◌else◌}
use mini_hadoop.Common.Int.{ℤ, pos, eqb_ℤ}
use mini_hadoop.Common.Text.{Bytes, codes}
use mini_hadoop.Common.Assoc.{Map, lookup, insert, erase}
use mini_hadoop.Status.{Status}
use mini_hadoop.Ndfs.FsNamesystem.{Block, generate}

abbrev pub BlockStorage : Type 0
BlockStorage = Map ℤ Bytes

module _ (block_path : ℤ → Bytes) where
  unfoldable pub store_block : Bool → Block → Bytes → BlockStorage → Status × BlockStorage
  store_block creates block bytes storage =
      if creates then (Status.ok, insert eqb_ℤ block.block_id bytes storage) else (
        Status.io_error (codes "cannot create block file: " ++ block_path block.block_id),
        storage,
      )

  -- The status, and what is in `data` when it is OK.
  unfoldable pub read_block : ℤ → BlockStorage → Status × Bytes
  read_block id storage = elim (lookup eqb_ℤ id storage) [
    | some bytes ↦ (Status.ok, bytes)
    | none ↦ (Status.io_error (codes "cannot open block: " ++ block_path id), [])
  ]

  unfoldable pub remove_block : ℤ → BlockStorage → Status × BlockStorage
  remove_block id storage = elim (lookup eqb_ℤ id storage) [
    | some bytes ↦ (Status.ok, erase eqb_ℤ id storage)
    | none ↦ (Status.io_error (codes "cannot remove block: " ++ block_path id), storage)
  ]

unfoldable pub get_block_report : BlockStorage → List Block
get_block_report = map (λ (id, bytes). generate id (pos (length bytes)))
