-- ===== src/Ndfs/DataXceive/Examples.antt =====
-- A block of three bytes that is written to a DataNode of src/ndfs/data_xceive_server.h and read back.
use mini_hadoop.Common.{◌≡◌, refl, true, [], ◌∷◌, ◌++◌, arith, ok, some, length_error}
use mini_hadoop.Common.Int.{ℤ, pos, negsuc, to_u64, of_u64}
use mini_hadoop.Common.Assoc.{insert, lookup}
use mini_hadoop.Common.Text.{Bytes}
use mini_hadoop.Ipc.Socket.{Incoming, read_full, write_full}
use mini_hadoop.Ipc.Socket.Stream.{concat}
use mini_hadoop.Ipc.Rpc.{Ending}
use mini_hadoop.Ndfs.BlockStorage.{BlockStorage, store_block, read_block}
use mini_hadoop.Ndfs.DataXceive.{
  op_write_block, to_wire, receive_wire, receive_block, handle_read, handle_write,
  handle_connection, host_to_net64, net_to_host64,
}
use mini_hadoop.Ndfs.DataXceive.Transfer.{read_data-write_message, handle_connection_negative}
use mini_hadoop.Ndfs.DfsClient.Transfer.{write_message, read_message, read_data}

abbrev block_path : ℤ → Bytes
block_path id = b'/' ∷ []

abbrev chunk : Bytes
chunk = 10 ∷ 20 ∷ 30 ∷ []

abbrev written : Incoming
written =
    (80 ∷ 0 ∷ 0 ∷ 0 ∷ 0 ∷ 0 ∷ 0 ∷ [])
    ∷ (1 ∷ 7 ∷ 0 ∷ 0 ∷ 0 ∷ 0 ∷ 0 ∷ 0 ∷ 0 ∷ 3 ∷ 10 ∷ [])
    ∷ (20 ∷ 30 ∷ [])
    ∷ []

abbrev asked : Incoming
asked = (81 ∷ 0 ∷ 0 ∷ 0 ∷ 0 ∷ 0 ∷ 0 ∷ 1 ∷ 7 ∷ []) ∷ []

abbrev answered : Incoming
answered = (0 ∷ 0 ∷ 0 ∷ 0 ∷ 0 ∷ 0 ∷ 0 ∷ 3 ∷ 10 ∷ 20 ∷ []) ∷ (30 ∷ []) ∷ []

abbrev storage : BlockStorage
storage = (pos 263, chunk) ∷ []

written_bytes : concat written ≡ write_message (pos 263) chunk
unfolding write_message to_wire to_u64 host_to_net64
written_bytes = refl

written_stored :
    (handle_connection block_path true [] (1 ∷ []) [] written).1 ≡ Ending.closed storage
unfolding handle_connection handle_write receive_block receive_wire read_full store_block insert
    net_to_host64 of_u64
written_stored = refl

asked_bytes : concat asked ≡ read_message (pos 263)
unfolding read_message to_wire to_u64 host_to_net64
asked_bytes = refl

sent_size : write_full (8 ∷ []) (to_wire (pos 3)) ≡ (to_wire (pos 3), true)
unfolding write_full to_wire
sent_size = refl

sent_chunk : write_full (2 ∷ 2 ∷ []) chunk ≡ (chunk, true)
unfolding write_full
sent_chunk = refl

answered_bytes :
    concat answered ≡ (handle_connection block_path true storage (8 ∷ []) (2 ∷ 2 ∷ []) asked).0
unfolding handle_connection handle_read receive_wire read_full read_block lookup net_to_host64
    of_u64 write_full to_wire to_u64 host_to_net64
answered_bytes = refl

read_data-write_message_example : read_data answered ≡ ok (some chunk)
read_data-write_message_example =
    read_data-write_message block_path true [] storage (pos 263) chunk (1 ∷ []) [] (8 ∷ [])
      (2 ∷ 2 ∷ []) written asked answered (omega arith) (omega arith)
      (written_bytes, ((λ e. cc), ((λ e. cc), ((λ e. cc), tt)))) written_stored sent_size sent_chunk
      (asked_bytes, ((λ e. cc), tt)) (answered_bytes, ((λ e. cc), ((λ e. cc), tt)))

-- A length of -1.
abbrev negative : Incoming
negative =
    (80 ∷ 0 ∷ 0 ∷ 0 ∷ 0 ∷ 0 ∷ 0 ∷ 0 ∷ 7 ∷ [])
    ∷ (255 ∷ 255 ∷ 255 ∷ 255 ∷ 255 ∷ 255 ∷ 255 ∷ 255 ∷ [])
    ∷ []

negative_bytes : concat negative ≡ op_write_block ∷ (to_wire (pos 7) ++ (to_wire (negsuc 0) ++ []))
unfolding to_wire to_u64 host_to_net64
negative_bytes = refl

handle_connection_negative_example :
    handle_connection block_path true storage [] [] negative ≡ ([], Ending.terminated length_error)
handle_connection_negative_example =
    handle_connection_negative block_path true storage (pos 7) 0 [] [] [] negative (omega arith)
      (omega arith) (negative_bytes, ((λ e. cc), ((λ e. cc), tt)))
