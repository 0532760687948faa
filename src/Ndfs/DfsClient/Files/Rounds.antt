-- ===== src/Ndfs/DfsClient/Files/Rounds.antt =====
-- One round of the loop of `WriteFile` in src/ndfs/dfs_client.h: what it leaves on the cluster.
use mini_hadoop.Common.{
  ℕ, suc, ◌+◌, ◌^◌, ◌≤◌, ◌<◌, ◌≡◌, refl, sym, ap, subst, ◌∙◌, true, List, [], ◌∷◌, ◌++◌, length,
  some, arith, All,
}
use mini_hadoop.Common.Int.{ℤ, pos, IsInt64, eqb_ℤ, eqb_ℤ_iff}
use mini_hadoop.Common.Text.{Bytes}
use mini_hadoop.Common.Assoc.{lookup, insert, lookup-insert}
use mini_hadoop.Ipc.Rpc.{max_message}
use mini_hadoop.Ndfs.FsNamesystem.{
  FsNamesystem, Block, generate, DataNodeInfo, choose_targets, default_replication, datanodes_of,
  set_datanodes,
}
use mini_hadoop.Ndfs.FsNamesystem.Client.{Allocation, allocate}
use mini_hadoop.Ndfs.FsNamesystem.DataNodes.{has_datanode}
use mini_hadoop.Ndfs.FsNamesystem.Files.{allocate-HasBlocks, Fresh}
use mini_hadoop.Ndfs.NameNode.Server.{Served, Draws}
use mini_hadoop.Ndfs.DataXceive.Transfer.{handle_connection-write_message}
use mini_hadoop.Ndfs.DfsClient.Transfer.{write_message}
use mini_hadoop.Ndfs.BlockStorage.{store_block, BlockStorage}
use mini_hadoop.Ndfs.DfsClient.Protocol.{IsFitBlock}
use mini_hadoop.Ndfs.DfsClient.Files.{Cluster, send_chunk, confirm}
use mini_hadoop.Ndfs.DfsClient.Files.World.{
  segment, contact_node, address_eq_iff, World, world, address, address_eq,
}
use mini_hadoop.Ndfs.DfsClient.Files.Replies.{served, call_block_received}
use mini_hadoop.Ndfs.DfsClient.Files.Placed.{
  ids, datanodes_of-set_datanodes, ids_snoc, segment-Delivers, Written, placed-set_datanodes,
  placed_last, confirmed-Written,
}

module _ (draws : Draws) (path : Bytes) (t : DataNodeInfo) (dns : List DataNodeInfo) where
  module _ (block_path : ℤ → Bytes) (burst : ℕ) where
    abbrev cluster : Cluster World
    cluster = world draws block_path burst

    -- A target that `confirm` is called for.
    abbrev pub IsListed : DataNodeInfo → Type 0
    IsListed dn =
        (has_datanode dn.dn_name (t ∷ dns) ≡ true) × (length dn.dn_name + 64 ≤ max_message)

    confirm-Written :
        (targets : List DataNodeInfo) (w : World) (pairs : List (ℤ × Bytes)) (chunk : Bytes) (r : ℕ)
        (block : Block) (n : ℕ)
        → All IsListed targets
        → IsFitBlock block
        → n < 2 ^ 63
        → Written draws path t dns w (pairs ++ ((block.block_id, chunk) ∷ [])) r
        → Written draws path t dns
            (confirm cluster block n targets w)
            (pairs ++ ((block.block_id, chunk) ∷ []))
            (length targets + r)
    unfolding confirm
    confirm-Written [] w pairs chunk r block n hl hb hn h =
        let none_left : r ≡ 0 + r = omega arith in subst (Written draws path t dns w _) none_left h
    confirm-Written (dn ∷ targets) w pairs chunk r block n ((listed, short), hl) hb hn h =
        let here =
          placed_last draws path t dns h.server.namesystem pairs block.block_id chunk h.placed in
        let next =
          confirmed-Written draws path t dns w (pairs ++ ((block.block_id, chunk) ∷ [])) r block n
            dn h here listed in
        let answered = call_block_received draws w h.server h.up block n dn short hb hn in
        let count : length targets + suc r ≡ suc (length targets) + r = omega arith in
        rw (confirm, answered)
          (subst (Written draws path t dns _ _) count
            (confirm-Written targets _ pairs chunk (suc r) block n hl hb hn next))

    -- The contact that brings the chunk to the first target.
    chunk_stored :
        (w : World) (storage : BlockStorage) (id : ℤ) (chunk : Bytes)
        → IsInt64 id
        → length chunk < 2 ^ 63
        → lookup address_eq (address t) w.nodes ≡ some storage
        → send_chunk cluster (generate id (pos 0), t ∷ dns) chunk w ≡ record w {
          nodes = insert address_eq (address t) (insert eqb_ℤ id chunk storage) w.nodes;
        }
    unfolding send_chunk contact_node store_block
    chunk_stored w storage id chunk hid hlen reached =
        let handled =
          handle_connection-write_message block_path true storage id chunk (burst ∷ []) (burst ∷ [])
            (segment (write_message id chunk)) hid hlen
            (segment-Delivers (write_message id chunk)) in
        rw (send_chunk, contact_node, reached, handled) refl

    held_elsewhere :
        (id : ℤ) (chunk : Bytes) (storage : BlockStorage) (pairs : List (ℤ × Bytes))
        → Fresh id (ids pairs)
        → All (λ p. lookup eqb_ℤ p.0 storage ≡ some p.1) pairs
        → All
            (λ p. lookup eqb_ℤ p.0 (insert eqb_ℤ id chunk storage) ≡ some p.1)
            (pairs ++ ((id, chunk) ∷ []))
    held_elsewhere id chunk storage [] hf h =
        let own : eqb_ℤ id id ≡ true = (eqb_ℤ_iff id id).1 refl in
        (rw (lookup-insert eqb_ℤ eqb_ℤ_iff id id chunk storage, own) refl, tt)
    held_elsewhere id chunk storage (p ∷ pairs) (other, hf) (hp, h) = (
      rw (lookup-insert eqb_ℤ eqb_ℤ_iff id p.0 chunk storage, other) hp,
      held_elsewhere id chunk storage pairs hf h,
    )

    placed_snoc :
        (s : FsNamesystem) (id : ℤ) (chunk : Bytes) (pairs : List (ℤ × Bytes))
        → All (λ j. datanodes_of j s ≡ t ∷ dns) (ids pairs)
        → datanodes_of id s ≡ t ∷ dns
        → All (λ j. datanodes_of j s ≡ t ∷ dns) (ids (pairs ++ ((id, chunk) ∷ [])))
    placed_snoc s id chunk [] h hi = (hi, tt)
    placed_snoc s id chunk (p ∷ pairs) (hp, h) hi = (hp, placed_snoc s id chunk pairs h hi)

    -- The world after the call that allocates, with the id that is drawn for the request.
    abbrev pub allocated_world : World → Served → World
    allocated_world w s = record w {
      name_node = some (served s (allocate (draws s.requests).0 path s.namesystem).0);
    }

    sent-Written :
        (w : World) (pairs : List (ℤ × Bytes)) (r : ℕ) (chunk : Bytes)
        (h : Written draws path t dns w pairs r)
        → IsInt64 (draws h.server.requests).0
        → Fresh (draws h.server.requests).0 (ids pairs)
        → length chunk < 2 ^ 63
        → Written draws path t dns
            (send_chunk cluster
              (generate (draws h.server.requests).0 (pos 0), t ∷ dns)
              chunk
              (allocated_world w h.server))
            (pairs ++ (((draws h.server.requests).0, chunk) ∷ []))
            (suc r)
    unfolding choose_targets
    sent-Written w pairs r chunk h hid hf hlen =
        let id = (draws h.server.requests).0 in
        let fs = h.server.namesystem in
        let targets = choose_targets default_replication fs in
        rw (chunk_stored (allocated_world w h.server) h.storage id chunk hid hlen h.reached)
          (record {
            server = served h.server (allocate id path fs).0;
            up = refl;
            counted = ap suc h.counted;
            blocks =
                rw (ids_snoc pairs id chunk) (allocate-HasBlocks fs id path (ids pairs) h.blocks);
            chosen = h.chosen;
            placed =
                subst
                  (λ (x : List DataNodeInfo).
                    All (λ j. datanodes_of j (set_datanodes id x fs) ≡ t ∷ dns)
                      (ids (pairs ++ ((id, chunk) ∷ []))))
                  (sym h.chosen)
                  (placed_snoc (set_datanodes id (t ∷ dns) fs) id chunk pairs
                    (placed-set_datanodes draws path t dns id fs (ids pairs) h.placed)
                    (datanodes_of-set_datanodes id id (t ∷ dns) fs
                      ∙ rw ((eqb_ℤ_iff id id).1 refl) refl));
            storage = insert eqb_ℤ id chunk h.storage;
            reached =
                rw
                  (
                    lookup-insert address_eq address_eq_iff (address t) (address t)
                        (insert eqb_ℤ id chunk h.storage) w.nodes,
                    (address_eq_iff (address t) (address t)).1 refl,
                  )
                  refl;
            held = held_elsewhere id chunk h.storage pairs hf h.held;
          })

    -- The whole of a round behind the call that allocates.
    pub round-Written :
        (w : World) (pairs : List (ℤ × Bytes)) (r : ℕ) (chunk : Bytes)
        (h : Written draws path t dns w pairs r)
        → IsInt64 (draws h.server.requests).0
        → Fresh (draws h.server.requests).0 (ids pairs)
        → length chunk < 2 ^ 63
        → All IsListed (t ∷ dns)
        → let allocation : Allocation = (generate (draws h.server.requests).0 (pos 0), t ∷ dns) in
          Written draws path t dns
            (confirm cluster allocation.0
              (length chunk)
              allocation.1
              (send_chunk cluster allocation chunk (allocated_world w h.server)))
            (pairs ++ (((draws h.server.requests).0, chunk) ∷ []))
            (length (t ∷ dns) + suc r)
    round-Written w pairs r chunk h hid hf hlen hl =
        confirm-Written (t ∷ dns) _ pairs chunk (suc r)
          (generate (draws h.server.requests).0 (pos 0)) (length chunk) hl
          (hid, omega arith, omega arith) hlen (sent-Written w pairs r chunk h hid hf hlen)
