-- ===== src/Ndfs/DataXceive/Transfer.antt =====
-- The two ends of the transfer of a block: src/ndfs/data_xceive_server.h and src/ndfs/dfs_client.h.
use mini_hadoop.Common.{
  length_error, ℕ, ◌^◌, ◌<◌, ◌≡◌, refl, sym, subst, Bool, true, List, [], ◌∷◌, ◌++◌, append-nil,
  none, some, length, arith, ok,
}
use mini_hadoop.Common.Int.{eqb_ℤ_iff, negsuc, ℤ, pos, IsInt64, eqb_ℤ}
use mini_hadoop.Common.Text.{Bytes}
use mini_hadoop.Common.Assoc.{lookup-insert, insert, lookup}
use mini_hadoop.Ipc.Socket.{Incoming, write_full}
use mini_hadoop.Ipc.Socket.Stream.{Delivers, read_full-Delivers, read_full_short}
use mini_hadoop.Ipc.Rpc.{Ending}
use mini_hadoop.Ndfs.FsNamesystem.{generate}
use mini_hadoop.Ndfs.BlockStorage.{BlockStorage, store_block, read_block}
use mini_hadoop.Ndfs.DataXceive.{
  op_write_block, op_read_block, to_wire, receive_wire, receive_block, handle_write, handle_read,
  handle_connection,
}
use mini_hadoop.Ndfs.DataXceive.Wire.{receive_wire-Delivers}
use mini_hadoop.Ndfs.DfsClient.Transfer.{write_message, read_message, read_sized, read_data}

module _ (block_path : ℤ → Bytes) (creates : Bool) (storage : BlockStorage) where
  pub handle_connection-write_message :
      (id : ℤ) (chunk : Bytes) (first second : List ℕ) (segments : Incoming)
      → IsInt64 id
      → length chunk < 2 ^ 63
      → Delivers segments (write_message id chunk)
      → handle_connection block_path creates storage first second segments ≡ (
        (write_full first (1 ∷ [])).0,
        Ending.closed
            (store_block block_path creates (generate id (pos (length chunk))) chunk storage).1,
      )
  unfolding handle_connection handle_write receive_block write_message
  handle_connection-write_message id chunk first second segments hid hlen h =
      let (s1, e1, h1) =
        read_full-Delivers (op_write_block ∷ [])
          (to_wire id ++ (to_wire (pos (length chunk)) ++ chunk)) segments h in
      let (s2, e2, h2) =
        receive_wire-Delivers id (to_wire (pos (length chunk)) ++ chunk) s1 hid h1 in
      let (s3, e3, h3) = receive_wire-Delivers (pos (length chunk)) chunk s2 hlen h2 in
      let (s4, e4, h4) =
        read_full-Delivers chunk [] s3 (subst (Delivers s3) (sym (append-nil chunk)) h3) in
      rw (handle_connection, e1, handle_write, e2, e3, receive_block, e4) refl

  pub handle_connection-read_message :
      (id : ℤ) (bytes : Bytes) (first second : List ℕ) (segments : Incoming)
      → IsInt64 id
      → lookup eqb_ℤ id storage ≡ some bytes
      → write_full first (to_wire (pos (length bytes))) ≡ (to_wire (pos (length bytes)), true)
      → write_full second bytes ≡ (bytes, true)
      → Delivers segments (read_message id)
      → handle_connection block_path creates storage first second segments
        ≡ (to_wire (pos (length bytes)) ++ bytes, Ending.closed storage)
  unfolding handle_connection handle_read read_message read_block
  handle_connection-read_message id bytes first second segments hid el ew ew' h =
      let (s1, e1, h1) = read_full-Delivers (op_read_block ∷ []) (to_wire id) segments h in
      let (s2, e2, h2) =
        receive_wire-Delivers id [] s1 hid
          (subst (Delivers s1) (sym (append-nil (to_wire id))) h1) in
      rw (handle_connection, e1, handle_read, e2, read_block, el, ew, ew') refl

  pub handle_connection-read_missing :
      (id : ℤ) (first second : List ℕ) (segments : Incoming)
      → IsInt64 id
      → lookup eqb_ℤ id storage ≡ none
      → Delivers segments (read_message id)
      → handle_connection block_path creates storage first second segments
        ≡ ([], Ending.closed storage)
  unfolding handle_connection handle_read read_message read_block
  handle_connection-read_missing id first second segments hid el h =
      let (s1, e1, h1) = read_full-Delivers (op_read_block ∷ []) (to_wire id) segments h in
      let (s2, e2, h2) =
        receive_wire-Delivers id [] s1 hid
          (subst (Delivers s1) (sym (append-nil (to_wire id))) h1) in
      rw (handle_connection, e1, handle_read, e2, read_block, el) refl

pub read_data-Delivers :
    (bytes : Bytes) (segments : Incoming)
    → length bytes < 2 ^ 63
    → Delivers segments (to_wire (pos (length bytes)) ++ bytes)
    → read_data segments ≡ ok (some bytes)
unfolding read_data read_sized
read_data-Delivers bytes segments hlen h =
    let (s1, e1, h1) = receive_wire-Delivers (pos (length bytes)) bytes segments hlen h in
    let (s2, e2, h2) =
      read_full-Delivers bytes [] s1 (subst (Delivers s1) (sym (append-nil bytes)) h1) in
    rw (read_data, e1, read_sized, e2) refl

pub read_data_end : (segments : Incoming) → Delivers segments [] → read_data segments ≡ ok none
unfolding read_data receive_wire
read_data_end segments h =
    rw (read_data, receive_wire, read_full_short 8 [] segments h (omega arith)) refl

-- A chunk that a client sends to a DataNode, which can create the file, is what a client reads from
-- it on a later connection, however the streams are cut into segments, if the peers take what is
-- sent.
pub read_data-write_message :
    (block_path : ℤ → Bytes) (creates : Bool) (storage storage' : BlockStorage) (id : ℤ)
    (chunk : Bytes) (ack unused first second : List ℕ) (to_node to_node' to_client : Incoming)
    → IsInt64 id
    → length chunk < 2 ^ 63
    → Delivers to_node (write_message id chunk)
    → (handle_connection block_path true storage ack unused to_node).1 ≡ Ending.closed storage'
    → write_full first (to_wire (pos (length chunk))) ≡ (to_wire (pos (length chunk)), true)
    → write_full second chunk ≡ (chunk, true)
    → Delivers to_node' (read_message id)
    → Delivers to_client (handle_connection block_path creates storage' first second to_node').0
    → read_data to_client ≡ ok (some chunk)
unfolding store_block
read_data-write_message block_path creates storage storage' id chunk ack unused first second to_node
      to_node' to_client hid hlen hw stored ew ew' hr hc =
    let written =
      handle_connection-write_message block_path true storage id chunk ack unused to_node hid hlen
        hw in
    let same : insert eqb_ℤ id chunk storage ≡ storage' = cc in
    let own : eqb_ℤ id id ≡ true = (eqb_ℤ_iff id id).1 refl in
    let there : lookup eqb_ℤ id storage' ≡ some chunk =
      rw (← same, lookup-insert eqb_ℤ eqb_ℤ_iff id id chunk storage, own) refl in
    let answered =
      handle_connection-read_message block_path creates storage' id chunk first second to_node' hid
        there ew ew' hr in
    read_data-Delivers chunk to_client hlen
      (subst (λ (r : Bytes × Ending BlockStorage). Delivers to_client r.0) answered hc)

-- A request to write a block that announces a negative length terminates the process, whatever
-- follows.
pub handle_connection_negative :
    (block_path : ℤ → Bytes) (creates : Bool) (storage : BlockStorage) (id : ℤ) (n : ℕ)
    (rest : Bytes) (first second : List ℕ) (segments : Incoming)
    → IsInt64 id
    → n < 2 ^ 63
    → Delivers segments (op_write_block ∷ (to_wire id ++ (to_wire (negsuc n) ++ rest)))
    → handle_connection block_path creates storage first second segments
      ≡ ([], Ending.terminated length_error)
unfolding handle_connection handle_write receive_block
handle_connection_negative block_path creates storage id n rest first second segments hid hn h =
    let (s1, e1, h1) =
      read_full-Delivers (op_write_block ∷ []) (to_wire id ++ (to_wire (negsuc n) ++ rest)) segments
        h in
    let (s2, e2, h2) = receive_wire-Delivers id (to_wire (negsuc n) ++ rest) s1 hid h1 in
    let (s3, e3, h3) = receive_wire-Delivers (negsuc n) rest s2 (omega arith) h2 in
    rw (handle_connection, e1, handle_write, e2, e3, receive_block) refl
