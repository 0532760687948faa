-- ===== src/Ndfs/DfsClient.antt =====
-- src/ndfs/dfs_client.h: the requests of the client to the NameNode and how it reads the replies.
-- `CallRaw` is the parameter `call`: the status, and the bytes of the reply. The children
-- Transfer and Files have the transfer of blocks.
pub mod Protocol
pub mod Remote
pub mod Transfer
pub mod Files
mod Examples
mod RemoteExamples
use mini_hadoop.Common.{ℕ, zero, suc, Bool, List, [], ◌∷◌, ◌++◌, Outcome, ok, throws, if◌then◌else◌}
use mini_hadoop.Common.Int.{ℤ, pos, negsuc}
use mini_hadoop.Common.Text.{Bytes, codes}
use mini_hadoop.Status.{Status, is_ok}
use mini_hadoop.Io.Buffer.{
  Reader, ◌>>=◌, return, reset, read_int, read_long, read_bool, read_string,
}
use mini_hadoop.Io.Buffer.Fields.{Field, bool, string, write_fields}
use mini_hadoop.Ndfs.FsNamesystem.{Block, DataNodeInfo}
use mini_hadoop.Ndfs.FsNamesystem.Client.{Allocation}

-- `ReadBlock`
abbrev pub read_block : Reader Block
read_block = do
  id ← read_long
  bytes ← read_long
  stamp ← read_long
  return (record { block_id = id; num_bytes = bytes; generation_stamp = stamp })

-- `ReadDataNodeInfo`
abbrev pub read_datanode_info : Reader DataNodeInfo
read_datanode_info = do
  name ← read_string
  host ← read_string
  port ← read_int
  capacity ← read_long
  remaining ← read_long
  last_update ← read_long
  return (record {
    dn_name = name;
    host = host;
    port = port;
    capacity = capacity;
    remaining = remaining;
    last_update = last_update;
  })

-- How often `for (int i = 0; i < count; i++)` runs.
abbrev pub times : ℤ → ℕ
times (pos n) = n
times (negsuc n) = 0

abbrev pub read_datanodes : ℕ → Reader (List DataNodeInfo)
read_datanodes zero = return []
read_datanodes (suc n) = do dn ← read_datanode_info; dns ← read_datanodes n; return (dn ∷ dns)

-- `ReadDataNodeInfoList`
unfoldable pub read_datanode_info_list : Reader (List DataNodeInfo)
read_datanode_info_list = do count ← read_int; read_datanodes (times count)

-- What `WriteFile` reads from a reply to `StartFile` or `AddBlock`.
unfoldable pub read_allocation : Reader Allocation
read_allocation = do block ← read_block; targets ← read_datanode_info_list; return (block, targets)

-- The reads of the loop of `ReadFile` from a reply to `GetBlocks`.
abbrev pub read_located : ℕ → Reader (List Allocation)
read_located zero = return []
read_located (suc n) = do located ← read_allocation; rest ← read_located n; return (located ∷ rest)

-- The request of `WriteFile` for its first block, and for any other.
abbrev pub start_file_request : Bytes → Bool → List Field
start_file_request path overwrite = string path ∷ bool overwrite ∷ []

abbrev pub add_block_request : Bytes → List Field
add_block_request path = string path ∷ []

abbrev pub read_strings : ℕ → Reader (List Bytes)
read_strings zero = return []
read_strings (suc n) = do s ← read_string; rest ← read_strings n; return (s ∷ rest)

module _ (call : ℕ → Bytes → Status × Bytes) where
  -- A request that is answered by one `bool`; the message of a failure ends in the path.
  abbrev pub ask : ℕ → Bytes → Bytes → Outcome Status
  ask op failure path =
      let (st, resp) = call op (write_fields [] (string path ∷ [])) in
      let answer = read_bool (reset resp) in
      if is_ok st
      then elim answer [
        | ok (done, _) ↦ ok (if done then Status.ok else Status.io_error (failure ++ path))
        | throws e ↦ throws e
      ]
      else ok st

  unfoldable pub client_mkdirs : Bytes → Outcome Status
  client_mkdirs path = ask 4 (codes "mkdirs failed: ") path

  unfoldable pub client_delete : Bytes → Outcome Status
  client_delete path = ask 3 (codes "delete failed: ") path

  unfoldable pub client_list : Bytes → Outcome (List Bytes)
  client_list path =
      let (st, resp) = call 5 (write_fields [] (string path ∷ [])) in
      let read : Reader (List Bytes) = (do count ← read_int; read_strings (times count)) in
      let answer = read (reset resp) in
      if is_ok st then elim answer [ ok (items, _) ↦ ok items | throws e ↦ throws e ] else ok []
