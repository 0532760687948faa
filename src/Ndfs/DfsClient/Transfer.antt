-- ===== src/Ndfs/DfsClient/Transfer.antt =====
-- What src/ndfs/dfs_client.h sends to a DataNode and reads from it. The conversions of an `int64_t`
-- are those of the DataNode, in the same words.
use mini_hadoop.Common.{◌∷◌, ◌++◌, Option, none, some, length, Outcome, ok, throws, length_error}
use mini_hadoop.Common.Int.{ℤ, pos, negsuc}
use mini_hadoop.Common.Text.{Bytes}
use mini_hadoop.Ipc.Socket.{Incoming, read_full}
use mini_hadoop.Ndfs.DataXceive.{op_write_block, op_read_block, to_wire, receive_wire}

-- The sends of `WriteFile` for one chunk, if the peer takes all bytes.
unfoldable pub write_message : ℤ → Bytes → Bytes
write_message id chunk = op_write_block ∷ (to_wire id ++ (to_wire (pos (length chunk)) ++ chunk))

unfoldable pub read_message : ℤ → Bytes
read_message id = op_read_block ∷ to_wire id

-- What `ReadFile` makes of the reply: `none` is a `continue` with the next DataNode. The size is
-- converted to an unsigned one; a negative one, which no DataNode sends, is not followed further
-- than to the exception of `resize`.
unfoldable pub read_sized : ℤ → Incoming → Outcome (Option Bytes)
read_sized (negsuc n) segments = throws length_error
read_sized (pos n) segments = elim (read_full n segments) [
  | none ↦ ok none
  | some (bytes, _) ↦ ok (some bytes)
]

unfoldable pub read_data : Incoming → Outcome (Option Bytes)
unfolding read_sized
read_data segments = elim (receive_wire segments) [
  | none ↦ ok none
  | some (len, rest) ↦ read_sized len rest
]
