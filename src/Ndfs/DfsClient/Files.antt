-- ===== src/Ndfs/DfsClient/Files.antt =====
-- `WriteFile` and `ReadFile` of src/ndfs/dfs_client.h, over the operations of a cluster.
pub mod World
pub mod Replies
pub mod Placed
pub mod Rounds
pub mod Conditions
pub mod Allocating
pub mod Writing
pub mod Located
pub mod Fetching
pub mod Reading
pub mod Refused
pub mod Termination
pub mod Sample
mod Examples
use mini_hadoop.Common.{
  ℕ, zero, suc, Bool, true, false, List, [], ◌∷◌, ◌++◌, Option, none, some, length, take, drop,
  Outcome, ok, throws, Fault, if◌then◌else◌,
}
use mini_hadoop.Common.Int.{ℤ, pos}
use mini_hadoop.Common.Text.{Bytes, codes}
use mini_hadoop.Status.{Status, is_ok}
use mini_hadoop.Io.Buffer.{InputBuffer, reset, read_int}
use mini_hadoop.Io.Buffer.Fields.{Field, long, string, write_fields}
use mini_hadoop.Ipc.Socket.{Incoming}
use mini_hadoop.Ndfs.FsNamesystem.{Block, DataNodeInfo}
use mini_hadoop.Ndfs.FsNamesystem.Client.{Allocation}
use mini_hadoop.Ndfs.DfsClient.{times, read_allocation, start_file_request, add_block_request}
use mini_hadoop.Ndfs.DfsClient.Transfer.{write_message, read_message, read_data}

-- What the client calls, with the state of the cluster: `CallRaw` on the connection to the NameNode,
-- and a connection to a DataNode that sends one message and receives. `none` is a `connect` that
-- fails.
pub record Cluster (W : Type 0) : Type 0 where
  pub call : ℕ → Bytes → W → (Status × Bytes) × W
  pub contact : DataNodeInfo → Bytes → W → Option (Incoming × W)

-- How `WriteFile` ends. Without fuel it is stuck.
pub data Run : Type 0 where
  returned : Status → Run
  raised : Fault → Run
  stuck : Run

-- The request of `WriteFile` that confirms a chunk.
abbrev pub received_request : Block → ℕ → DataNodeInfo → List Field
received_request block size dn =
    string dn.dn_name
    ∷ long block.block_id
    ∷ long (pos size)
    ∷ long block.generation_stamp
    ∷ string []
    ∷ []

module _ {W : Type 0} (cluster : Cluster W) where
  -- The chunk goes to the first target. Neither a failed `connect` nor the acknowledgement is looked
  -- at.
  unfoldable pub send_chunk : Allocation → Bytes → W → W
  send_chunk (block, []) chunk w = w
  send_chunk (block, dn ∷ dns) chunk w =
      elim (cluster.contact dn (write_message block.block_id chunk) w) [
        | none ↦ w
        | some (_, w') ↦ w'
      ]

  -- The results of the confirmations are dropped.
  unfoldable pub confirm : Block → ℕ → List DataNodeInfo → W → W
  confirm block size [] w = w
  confirm block size (dn ∷ dns) w =
      confirm block size dns (cluster.call 8 (write_fields [] (received_request block size dn)) w).1

  -- The loop of `WriteFile` on the bytes that are left, one round for each unit of fuel. `first` is
  -- `first_block`.
  unfoldable pub write_loop : ℕ → ℕ → Bytes → Bool → Bool → Bytes → W → Run × W
  write_loop block_size fuel path overwrite first [] w = (Run.returned Status.ok, w)
  write_loop block_size zero path overwrite first (b ∷ bs) w = (Run.stuck, w)
  write_loop block_size (suc fuel) path overwrite first (b ∷ bs) w =
      let chunk = take block_size (b ∷ bs) in
      let op = if first then 0 else 1 in
      let request = if first then start_file_request path overwrite else add_block_request path in
      let ((st, resp), w') = cluster.call op (write_fields [] request) w in
      let done : Run × W = elim (read_allocation (reset resp)) [
        | throws e ↦ (Run.raised e, w')
        | ok (allocation, _) ↦
            write_loop block_size fuel path overwrite false (drop block_size (b ∷ bs))
              (confirm allocation.0 (length chunk) allocation.1 (send_chunk allocation chunk w'))
      ] in
      if is_ok st then done else (Run.returned st, w')

  -- `WriteFile`: as many rounds as bytes are enough for any block size but 0.
  unfoldable pub write_file : ℕ → Bytes → Bytes → Bool → W → Run × W
  unfolding write_loop
  write_file block_size path bytes overwrite w =
      write_loop block_size (length bytes) path overwrite true bytes w

  -- The loop of `ReadFile` over the targets of a block: the first reply that is complete.
  unfoldable pub fetch : List DataNodeInfo → ℤ → W → Outcome (Option Bytes) × W
  fetch [] id w = (ok none, w)
  fetch (dn ∷ dns) id w = elim (cluster.contact dn (read_message id) w) [
    | none ↦ fetch dns id w
    | some (reply, w') ↦ elim (read_data reply) [
      | throws e ↦ (throws e, w')
      | ok none ↦ fetch dns id w'
      | ok (some bytes) ↦ (ok (some bytes), w')
    ]
  ]

  -- `to_string` is `std::to_string`.
  module _ (to_string : ℤ → Bytes) where
    -- The loop of `ReadFile` over the blocks of the reply, with `data` so far.
    unfoldable pub read_blocks : ℕ → InputBuffer → Bytes → W → Outcome (Status × Bytes) × W
    unfolding fetch
    read_blocks zero b bytes w = (ok (Status.ok, bytes), w)
    read_blocks (suc n) b bytes w = elim (read_allocation b) [
      | throws e ↦ (throws e, w)
      | ok ((block, targets), b') ↦
          let (got, w') = fetch targets block.block_id w in
          elim got [
            | throws e ↦ (throws e, w')
            | ok none ↦ (
              ok (Status.io_error (codes "cannot read block " ++ to_string block.block_id), bytes),
              w',
            )
            | ok (some chunk) ↦ read_blocks n b' (bytes ++ chunk) w'
          ]
    ]

    -- `ReadFile`, with `data` as it was before the call.
    unfoldable pub read_file : Bytes → Bytes → W → Outcome (Status × Bytes) × W
    unfolding read_blocks
    read_file path before w =
        let ((st, resp), w') = cluster.call 2 (write_fields [] (string path ∷ [])) w in
        let rest : Outcome (Status × Bytes) × W = elim (read_int (reset resp)) [
          | throws e ↦ (throws e, w')
          | ok (count, b) ↦ read_blocks (times count) b [] w'
        ] in
        if is_ok st then rest else (ok (st, before), w')
