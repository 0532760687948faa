-- ===== src/Ndfs/DfsClient/Files/Fetching.antt =====
-- The loop of `ReadFile` of src/ndfs/dfs_client.h over the blocks of a file.
use mini_hadoop.Common.{
  Outcome, Option, ℕ, ◌^◌, ◌≤◌, ◌<◌, ◌≡◌, refl, sym, ap, subst, ◌∙◌, true, List, [], ◌∷◌, ◌++◌,
  append-nil, append_assoc, length, some, arith, All, ok,
}
use mini_hadoop.Common.Int.{ℤ, pos, IsInt64, eqb_ℤ}
use mini_hadoop.Common.Text.{Bytes}
use mini_hadoop.Common.Assoc.{lookup, insert, lookup-insert}
use mini_hadoop.Status.{Status}
use mini_hadoop.Io.Buffer.{InputBuffer, advance}
use mini_hadoop.Io.Buffer.Cursor.{At, advance-At}
use mini_hadoop.Io.Buffer.Fields.{fields_bytes}
use mini_hadoop.Ipc.Socket.{Incoming}
use mini_hadoop.Ipc.Rpc.{Ending}
use mini_hadoop.Ndfs.FsNamesystem.{DataNodeInfo}
use mini_hadoop.Ndfs.NameNode.{allocation_fields}
use mini_hadoop.Ndfs.NameNode.Server.{Draws}
use mini_hadoop.Ndfs.BlockStorage.{BlockStorage}
use mini_hadoop.Ndfs.DataXceive.{to_wire}
use mini_hadoop.Ndfs.DataXceive.Transfer.{handle_connection-read_message, read_data-Delivers}
use mini_hadoop.Ndfs.DfsClient.Protocol.{read_allocation-Reads, fields_bytes-append}
use mini_hadoop.Ndfs.DfsClient.Transfer.{read_message}
use mini_hadoop.Ndfs.DfsClient.Files.{Cluster, fetch, read_blocks}
use mini_hadoop.Ndfs.DfsClient.Files.World.{
  after, World, world, address, address_eq, address_eq_iff, segment, contact_node,
  write_full_enough,
}
use mini_hadoop.Ndfs.DfsClient.Files.Placed.{ids, segment-Delivers}
use mini_hadoop.Ndfs.DfsClient.Files.Conditions.{IsFitCluster, contents}
use mini_hadoop.Ndfs.DfsClient.Files.Located.{allocation, allocations, allocation-IsFit}

length-to_wire : (z : ℤ) → length (to_wire z) ≡ 8
unfolding to_wire
length-to_wire z = refl

module _ (path : Bytes) (t : DataNodeInfo) (dns : List DataNodeInfo)
    (fit : IsFitCluster path t dns) where
  module _ (draws : Draws) (block_path : ℤ → Bytes) (burst : ℕ) (to_string : ℤ → Bytes) where
    abbrev cluster : Cluster World
    cluster = world draws block_path burst

    -- The first target has the block.
    fetch_first :
        (id : ℤ) (chunk : Bytes) (w : World) (storage : BlockStorage)
        → IsInt64 id
        → length chunk ≤ burst
        → length chunk < 2 ^ 63
        → 8 ≤ burst
        → lookup address_eq (address t) w.nodes ≡ some storage
        → lookup eqb_ℤ id storage ≡ some chunk
        → fetch cluster (t ∷ dns) id w
          ≡ (ok (some chunk), record w { nodes = insert address_eq (address t) storage w.nodes })
    unfolding fetch contact_node
    fetch_first id chunk w storage hid hb hl h8 reached held =
        let size = to_wire (pos (length chunk)) in
        let handled =
          handle_connection-read_message block_path true storage id chunk (burst ∷ []) (burst ∷ [])
            (segment (read_message id)) hid held
            (write_full_enough burst size (rw (length-to_wire (pos (length chunk))) h8))
            (write_full_enough burst chunk hb) (segment-Delivers (read_message id)) in
        let got =
          read_data-Delivers chunk (segment (size ++ chunk)) hl
            (segment-Delivers (size ++ chunk)) in
        let answer : Bytes × Ending BlockStorage → Option (Incoming × World) =
          λ r. some (segment r.0, after block_path burst (address t) r.1 w) in
        let contacted : contact_node block_path burst t (read_message id) w
            ≡ some (
              segment (size ++ chunk),
              record w { nodes = insert address_eq (address t) storage w.nodes },
            ) =
          rw (contact_node, reached) (ap answer handled) in
        rw (fetch, contacted, got) refl

    pub read_blocks-contents :
        (pairs : List (ℤ × Bytes)) (b : InputBuffer) (acc : Bytes) (w : World)
        (storage : BlockStorage)
        → At b (fields_bytes (allocations path t dns fit (ids pairs)))
        → All IsInt64 (ids pairs)
        → All (λ p. length p.1 ≤ burst) pairs
        → All (λ p. length p.1 ≤ 2 ^ 30) pairs
        → 8 ≤ burst
        → lookup address_eq (address t) w.nodes ≡ some storage
        → All (λ p. lookup eqb_ℤ p.0 storage ≡ some p.1) pairs
        → (read_blocks cluster to_string (length pairs) b acc w).0
          ≡ ok (Status.ok, acc ++ contents pairs)
    unfolding read_blocks
    read_blocks-contents [] b acc w storage at hi hb hl h8 reached held =
        ap (λ (x : Bytes). ok (Status.ok, x)) (sym (append-nil acc))
    read_blocks-contents ((id, chunk) ∷ pairs) b acc w storage at (hid, hi) (hc, hb) (hl, hl') h8
          reached (here, held) =
        let a = allocation path t dns fit id in
        let split =
          fields_bytes-append (allocation_fields a) (allocations path t dns fit (ids pairs)) in
        let at' = subst (At b) split at in
        let parsed =
          (read_allocation-Reads a (allocation-IsFit path t dns fit id hid)).run b
            (fields_bytes (allocations path t dns fit (ids pairs))) at' in
        let got = fetch_first id chunk w storage hid hc (omega (arith, hl)) h8 reached here in
        let reached' : lookup address_eq (address t) (insert address_eq (address t) storage w.nodes)
            ≡ some storage =
          rw
            (
              lookup-insert address_eq address_eq_iff (address t) (address t) storage w.nodes,
              (address_eq_iff (address t) (address t)).1 refl,
            )
            refl in
        let next =
          advance-At b (fields_bytes (allocation_fields a))
            (fields_bytes (allocations path t dns fit (ids pairs))) at' in
        let after : InputBuffer = advance (length (fields_bytes (allocation_fields a))) b in
        rw (read_blocks, parsed, got)
          (ap
              (λ (r : Outcome (Option Bytes) × World).
                (read_blocks cluster to_string (length pairs) after (acc ++ chunk) r.1).0)
              got
            ∙ read_blocks-contents pairs (advance (length (fields_bytes (allocation_fields a))) b)
                (acc ++ chunk) (record w { nodes = insert address_eq (address t) storage w.nodes })
                storage next hi hb hl' h8 reached' held
            ∙ ap (λ (x : Bytes). ok (Status.ok, x)) (append_assoc acc chunk (contents pairs)))
