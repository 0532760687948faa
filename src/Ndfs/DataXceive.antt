-- ===== src/Ndfs/DataXceive.antt =====
-- src/ndfs/data_xceive_server.h: the transfer of blocks. `HandleConnection` is a function of the
-- block files and of what arrives; `sends` has what the calls of `send` take, a list for each
-- `WriteFull`. The host is little endian.
pub mod Wire
pub mod Transfer
mod Examples
use mini_hadoop.Common.{
  ℕ, zero, suc, ◌+◌, ◌*◌, ◌/◌, ◌%◌, ◌^◌, Bool, true, List, [], ◌∷◌, ◌++◌, Option, none, some,
  length, ◌==◌, if◌then◌else◌, Fault, length_error,
}
use mini_hadoop.Common.Int.{ℤ, pos, negsuc, of_u64, to_u64}
use mini_hadoop.Common.Text.{Bytes}
use mini_hadoop.Status.{is_ok}
use mini_hadoop.Ipc.Socket.{Incoming, read_full, write_full}
use mini_hadoop.Ipc.Rpc.{Ending}
use mini_hadoop.Ndfs.FsNamesystem.{Block, generate}
use mini_hadoop.Ndfs.BlockStorage.{BlockStorage, store_block, read_block}

-- `htonl` and `ntohl` reverse the four bytes of a number.
abbrev pub htonl : ℕ → ℕ
htonl n = n % 256 * 2 ^ 24 + n / 2 ^ 8 % 256 * 2 ^ 16 + n / 2 ^ 16 % 256 * 2 ^ 8 + n / 2 ^ 24 % 256

unfoldable pub host_to_net64 : ℕ → ℕ
host_to_net64 v = htonl (v % 2 ^ 32) * 2 ^ 32 + htonl (v / 2 ^ 32)

unfoldable pub net_to_host64 : ℕ → ℕ
net_to_host64 v = htonl (v % 2 ^ 32) * 2 ^ 32 + htonl (v / 2 ^ 32)

-- A number of `k` bytes in memory.
abbrev pub le_bytes : ℕ → ℕ → Bytes
le_bytes zero n = []
le_bytes (suc k) n = (n % 256) ∷ le_bytes k (n / 256)

abbrev pub le_value : Bytes → ℕ
le_value [] = 0
le_value (b ∷ bs) = b + 256 * le_value bs

-- An `int64_t` as it is sent.
unfoldable pub to_wire : ℤ → Bytes
unfolding host_to_net64
to_wire z = le_bytes 8 (host_to_net64 (to_u64 z))

-- An `int64_t` that is received.
unfoldable pub receive_wire : Incoming → Option (ℤ × Incoming)
unfolding net_to_host64
receive_wire segments = elim (read_full 8 segments) [
  | none ↦ none
  | some (raw, rest) ↦ some (of_u64 (net_to_host64 (le_value raw)), rest)
]

abbrev pub op_write_block : ℕ
op_write_block = 80

abbrev pub op_read_block : ℕ
op_read_block = 81

module _ (block_path : ℤ → Bytes) (creates : Bool) (storage : BlockStorage) where
  -- From the allocation of `data` on. The size is converted to an unsigned one.
  unfoldable pub receive_block : List ℕ → ℤ → ℤ → Incoming → Bytes × Ending BlockStorage
  receive_block ack id (negsuc n) segments = ([], Ending.terminated length_error)
  receive_block ack id (pos n) segments = elim (read_full n segments) [
    | none ↦ ([], Ending.closed storage)
    | some (bytes, _) ↦ (
      (write_full ack (1 ∷ [])).0,
      Ending.closed (store_block block_path creates (generate id (pos n)) bytes storage).1,
    )
  ]

  unfoldable pub handle_write : List ℕ → Incoming → Bytes × Ending BlockStorage
  unfolding receive_block
  handle_write ack segments = elim (receive_wire segments) [
    | none ↦ ([], Ending.closed storage)
    | some (id, rest) ↦ elim (receive_wire rest) [
      | none ↦ ([], Ending.closed storage)
      | some (len, rest') ↦ receive_block ack id len rest'
    ]
  ]

  unfoldable pub handle_read : List ℕ → List ℕ → Incoming → Bytes × Ending BlockStorage
  handle_read first second segments = elim (receive_wire segments) [
    | none ↦ ([], Ending.closed storage)
    | some (id, _) ↦
        let (st, bytes) = read_block block_path id storage in
        let sent =
          (write_full first (to_wire (pos (length bytes)))).0 ++ (write_full second bytes).0 in
        (if is_ok st then sent else [], Ending.closed storage)
  ]

  -- `HandleConnection`
  unfoldable pub handle_connection : List ℕ → List ℕ → Incoming → Bytes × Ending BlockStorage
  unfolding handle_write handle_read
  handle_connection first second segments = elim (read_full 1 segments) [
    | none ↦ ([], Ending.closed storage)
    | some (raw, rest) ↦
        let op = le_value raw in
        let written = handle_write first rest in
        let read = handle_read first second rest in
        if op == op_write_block
        then written
        else if op == op_read_block
        then read
        else ([], Ending.closed storage)
  ]
